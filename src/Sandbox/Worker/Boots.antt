-- ===== src/Sandbox/Worker/Boots.antt =====
-- The machines that a worker boots, against those that ran a task.
use edge_orchestrator.Common.{
  ℕ, ◌≡◌, ◌∙◌, refl, sym, ap, subst, inl, inr, Bool, true, false, Option, none, some, List, ◌∷◌,
  contains, nat_eq, IsDistinct, arith, Bool-cases,
}
use edge_orchestrator.Sandbox.Policy.{phase_budget, image, boot}
use edge_orchestrator.Sandbox.Guest.{Host}
use edge_orchestrator.Sandbox.Worker.{
  Worker, image_unless, init_machine, boot_machine, check_running, store_booted, boot_unless,
  prepare_with,
}

module _ (H : Host) where
  open H use {World, made}

  abbrev Grows : World → World → Type 0
  Grows w w' = (x : ℕ) → contains x (made w) ≡ true → contains x (made w') ≡ true

  pub Grows-eq : (w w' : World) → made w' ≡ made w → Grows w w'
  Grows-eq w w' e x h = ap (contains x) e ∙ h

  -- What the boot of a machine does to those that were made.
  abbrev Booted : World → World × Option ℕ → Type 0
  Booted w r =
      Grows w r.0
      × ((m : ℕ) → r.1 ≡ some m → (contains m (made w) ≡ false) × (contains m (made r.0) ≡ true))

  grown : (w w' : World) (m : ℕ) → made w' ≡ m ∷ made w → Grows w w' × (contains m (made w') ≡ true)
  unfolding contains
  grown w w' m e = (λ x h. ap (contains x) e ∙ ground (arith, h), ap (contains m) e ∙ ground arith)

  same_machine : {m n : ℕ} → some m ≡ some n → m ≡ n
  same_machine e = cc

  init-Booted :
      (w : World) (b : ℕ) (w' : World) (o : Option ℕ)
      → H.machine_new w b ≡ (w', o)
      → Booted w (init_machine H b (w', o))
  unfolding init_machine
  init-Booted w b w' none e =
      let new : (H.machine_new w b).1 ≡ none = ap (λ (r : World × Option ℕ). r.1) e in
      let same : made w' ≡ made w =
        ap (λ (r : World × Option ℕ). made r.0) (sym e) ∙ H.machine_new_failed w b new in
      (Grows-eq w w' same, λ m f. absurd (cc))
  init-Booted w b w' (some n) e =
      let new : (H.machine_new w b).1 ≡ some n = ap (λ (r : World × Option ℕ). r.1) e in
      let w'' = (H.init w' n b).0 in
      let one : made w'' ≡ n ∷ made w =
        H.made-init w' n b
        ∙ ap (λ (r : World × Option ℕ). made r.0) (sym e)
        ∙ H.made-machine_new w b n new in
      let (more, there) = grown w w'' n one in
      (
        more,
        (λ m f. elim (Bool-cases (H.init w' n b).1) [
          | inl up ↦
              (let same : n ≡ m = same_machine (rw up at f) in
                (
                  subst (λ (k : ℕ). contains k (made w) ≡ false) same
                      (H.machine_new_fresh w b n new),
                  subst (λ (k : ℕ). contains k (made w'') ≡ true) same there,
                ))
          | inr down ↦ absurd (let g = (rw down at f) in cc (g))
        ]),
      )

  pub boot_machine-Booted : (w : World) (b : ℕ) → Booted w (boot_machine H w b)
  unfolding boot_machine
  boot_machine-Booted w b = init-Booted w b (H.machine_new w b).0 (H.machine_new w b).1 refl

  -- The machine that is kept has run none of the tasks, and each machine was made.
  pub record Inv (s : Worker H) (ran : List ℕ) : Type 0 where
    pub is_fresh : s.plan.reuse ≡ false
    pub distinct : IsDistinct ran
    pub old : (m : ℕ) → contains m ran ≡ true → contains m (made s.world) ≡ true
    pub idle :
        (m : ℕ) → s.machine ≡ some m → (contains m ran ≡ false) × (contains m (made s.world) ≡ true)

  Inv-world :
      (s : Worker H) (ran : List ℕ) (w : World)
      → Grows s.world w
      → Inv s ran
      → Inv (record s { world = w }) ran
  Inv-world s ran w g h = record {
    is_fresh = h.is_fresh;
    distinct = h.distinct;
    old = λ m k. g m (h.old m k);
    idle = λ m e. ((h.idle m e).0, g m (h.idle m e).1);
  }

  pub store_booted-Inv :
      (s : Worker H) (ran : List ℕ) (r : World × Option ℕ)
      → Booted s.world r
      → Inv s ran
      → Inv (store_booted H s r).0 ran
  store_booted-Inv s ran (w, none) (g, n) h = Inv-world s ran w g h
  store_booted-Inv s ran (w, some k) (g, n) h = record {
    is_fresh = h.is_fresh;
    distinct = h.distinct;
    old = λ m c. g m (h.old m c);
    idle = λ m e.
        let (unmade, there) = n m e in
        (
          (elim (Bool-cases (contains m ran)) [
            | inl used ↦ absurd (let made_before = h.old m used in cc (made_before, unmade))
            | inr unused ↦ unused
          ]),
          there,
        );
  }

  pub image_unless-Inv :
      (s : Worker H) (ran : List ℕ) (deadline : ℕ) (b : Bool)
      → Inv s ran
      → Inv (image_unless H s deadline b).0 ran
  unfolding image_unless
  image_unless-Inv s ran deadline true h = h
  image_unless-Inv s ran deadline false h =
      let budget = phase_budget deadline (H.now s.world) image in
      let w = (H.image_new s.world budget).0 in
      let k = Inv-world s ran w (Grows-eq s.world w (H.made-image_new s.world budget)) h in
      record { is_fresh = k.is_fresh; distinct = k.distinct; old = k.old; idle = k.idle }

  check_running-Inv :
      (s : Worker H) (ran : List ℕ) (o : Option ℕ) → Inv s ran → Inv (check_running H s o).0 ran
  unfolding check_running
  check_running-Inv s ran none h = h
  check_running-Inv s ran (some m) h =
      let w = (H.is_running s.world m).0 in
      Inv-world s ran w (Grows-eq s.world w (H.made-is_running s.world m)) h

  boot_unless-Inv :
      (r : Worker H × Bool) (ran : List ℕ) (deadline : ℕ)
      → Inv r.0 ran
      → Inv (boot_unless H r deadline).0 ran
  unfolding boot_unless
  boot_unless-Inv (s, true) ran deadline h = h
  boot_unless-Inv (s, false) ran deadline h =
      let budget = phase_budget deadline (H.now s.world) boot in
      store_booted-Inv s ran (boot_machine H s.world budget) (boot_machine-Booted s.world budget) h

  pub prepare_with-Inv :
      (r : Worker H × Bool) (ran : List ℕ) (deadline : ℕ)
      → Inv r.0 ran
      → Inv (prepare_with H r deadline).0 ran
  unfolding prepare_with
  prepare_with-Inv (s, false) ran deadline h = h
  prepare_with-Inv (s, true) ran deadline h =
      boot_unless-Inv (check_running H s s.machine) ran deadline
        (check_running-Inv s ran s.machine h)
