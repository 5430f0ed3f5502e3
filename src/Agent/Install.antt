-- ===== src/Agent/Install.antt =====
-- agent/src/main.rs: the shell text that installs a package in the guest. `line` ends a line.
use edge_orchestrator.Common.{List, [], ◌∷◌, ◌++◌, Bytes, codes}
use edge_orchestrator.Common.Text.{join}

-- `MIRRORS`
abbrev pub mirrors : List Bytes
mirrors =
    codes "https://mirrors.tuna.tsinghua.edu.cn/debian"
    ∷ codes "https://mirrors.ustc.edu.cn/debian"
    ∷ codes "https://mirrors.aliyun.com/debian"
    ∷ codes "http://deb.debian.org/debian"
    ∷ []

abbrev lines : List Bytes → Bytes
lines ls = join (10 ∷ []) ls

unfoldable pub apt_mirror_setup : Bytes
apt_mirror_setup = lines (
    (codes "MIRROR=''; for m in " ++ (join (codes " ") mirrors ++ codes "; do"))
    ∷ codes "             if curl -sf -o /dev/null --max-time 8 \"$m/dists/stable/Release\" \\"
    ∷ codes
        "             || curl -sf -o /dev/null --max-time 8 \"$m/dists/trixie/Release\"; then MIRROR=\"$m\"; break; fi"
    ∷ codes "           done"
    ∷ codes "           if [ -n \"$MIRROR\" ]; then"
    ∷ codes "             for f in /etc/apt/sources.list /etc/apt/sources.list.d/*.sources; do"
    ∷ codes "               [ -f \"$f\" ] || continue"
    ∷ codes
        "               sed -i.bak -E \"s#https?://(deb|security|ftp)\\.debian\\.org/debian(-security)?#$MIRROR#g\" \"$f\" && rm -f \"$f.bak\""
    ∷ codes "             done"
    ∷ codes "             echo \"apt mirror: $MIRROR\""
    ∷ codes "           else"
    ∷ codes "             echo \"apt mirror: candidates unreachable, keeping the image default\""
    ∷ codes "           fi"
    ∷ [])

abbrev apt : Bytes
apt = codes "DEBIAN_FRONTEND=noninteractive apt-get"

abbrev locks : Bytes
locks = codes "rm -f /var/lib/apt/lists/lock /var/lib/dpkg/lock /var/lib/dpkg/lock-frontend"

abbrev update : Bytes
update = apt ++ codes " -o Acquire::IndexTargets::deb-src::DefaultEnabled=false update -qq || true"

unfoldable pub ensure_tool : Bytes → Bytes
unfolding apt_mirror_setup
ensure_tool pkg = lines (
    (codes "(command -v " ++ (pkg ++ codes " >/dev/null 2>&1 || ("))
    ∷ (codes "  " ++ apt_mirror_setup)
    ∷ (codes "  " ++ locks)
    ∷ codes "  set -- /var/lib/apt/lists/*Packages*"
    ∷ (codes "  if [ ! -e \"$1\" ]; then " ++ (update ++ codes "; fi"))
    ∷ (codes "  " ++ (apt ++ (codes " install -y -qq " ++ (pkg ++ codes " || ("))))
    ∷ (codes "    " ++ locks)
    ∷ (codes "    " ++ update)
    ∷ (codes "    " ++ (apt ++ (codes " install -y -qq " ++ pkg)))
    ∷ codes "  )"
    ∷ codes "))"
    ∷ [])
