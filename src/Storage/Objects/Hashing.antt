-- ===== src/Storage/Objects/Hashing.antt =====
-- What a content hash identifies, for a digest without collisions.
use edge_orchestrator.Common.{
  ℕ, ◌≡◌, ◌≢◌, List, [], ◌∷◌, ◌++◌, arith, append_cancel_left, Bytes, All, length, codes,
}
use edge_orchestrator.Types.{Hash}
use edge_orchestrator.Storage.Decimal.{show_decimal, show_decimal_nonzero}
use edge_orchestrator.Storage.Objects.{TreeEntry, framed, hash_blob, hash_tree, hash_commit}

-- Two texts cut at their first zero byte agree after it.
after_zero :
    (ds es a b : Bytes)
    → All (λ d. d ≢ 0) ds
    → All (λ d. d ≢ 0) es
    → ds ++ 0 ∷ a ≡ es ++ 0 ∷ b
    → a ≡ b
after_zero [] [] a b h k e = cc
after_zero [] (y ∷ es) a b h k e = absurd (k.0 (ground arith))
after_zero (x ∷ ds) [] a b h k e = absurd (h.0 (ground arith))
after_zero (x ∷ ds) (y ∷ es) a b h k e = after_zero ds es a b h.1 k.1 (cc)

-- The header ends before the content, so the whole text determines the content.
framed-injective : (kind a b : Bytes) → framed kind a ≡ framed kind b → a ≡ b
unfolding framed
framed-injective kind a b e =
    after_zero (32 ∷ show_decimal (length a)) (32 ∷ show_decimal (length b)) a b
      (λ x. omega arith, show_decimal_nonzero (length a))
      (λ x. omega arith, show_decimal_nonzero (length b)) (append_cancel_left kind _ _ e)

-- No other text has the digest of this one.
abbrev pub NoCollision : (Bytes → Hash) → Bytes → Type 0
NoCollision digest text = (other : Bytes) → digest other ≡ digest text → other ≡ text

abbrev pub blob_text : Bytes → Bytes
blob_text content = framed (codes "blob") content

module _ (digest : Bytes → Hash) (b : Bytes) (unique : NoCollision digest (blob_text b)) where
  pub hash_blob-injective : (a : Bytes) → hash_blob digest a ≡ hash_blob digest b → a ≡ b
  unfolding hash_blob
  hash_blob-injective a e = framed-injective (codes "blob") a b (unique _ e)

  pub hash_tree-ne-hash_blob : (es : List TreeEntry) → hash_tree digest es ≢ hash_blob digest b
  unfolding hash_blob hash_tree framed
  hash_tree-ne-hash_blob es e = ground (arith, unique _ e)

  pub hash_commit-ne-hash_blob :
      (format_timestamp : ℕ → Bytes) (tree_hash : Hash) (parents : List Hash) (author : Bytes)
      (timestamp : ℕ) (message : Bytes)
      → hash_commit digest format_timestamp tree_hash parents author timestamp message
        ≢ hash_blob digest b
  unfolding hash_blob hash_commit framed
  hash_commit-ne-hash_blob format_timestamp tree_hash parents author timestamp message e =
      ground (arith, unique _ e)
