-- ===== src/Initrd/Image.antt =====
-- Where the parts of the image of src/make_initrd.c stand.
use toutatis.Common.{
  ℕ, suc, ◌+◌, ◌*◌, ◌%◌, ◌^◌, ◌<◌, ◌≡◌, refl, ap, arith, List, [], ◌∷◌, ◌++◌, length, length-append,
  length-drop, drop, Option, some,
}
use mathlib.Core.Path.{subst}
use toutatis.CString.{Memory}
use toutatis.CString.Bytes.{At, At-split}
use toutatis.Initrd.{
  Header, word_bytes, header_bytes, copy_name, make_headers, all_headers, contents,
}

-- The files `cs` are those with these names, and the names fit into the array.
abbrev pub Opens : (List ℕ → Option (List ℕ)) → List (List ℕ) → List (List ℕ) → Type 0
Opens fopen [] [] = Unit
Opens fopen (n ∷ ns) (c ∷ cs) = (fopen n ≡ some c) × (length n < 128) × Opens fopen ns cs
Opens fopen [] (c ∷ cs) = ⊥
Opens fopen (n ∷ ns) [] = ⊥

-- The array of headers, with names of 128 bytes.
abbrev pub IsFrame : (ℕ → Header) → Type 0
IsFrame old = (i : ℕ) → (length (old i).name ≡ 128) × (length (old i).pad ≡ 3)

abbrev pub total : List (List ℕ) → ℕ
total [] = 0
total (c ∷ cs) = length c + total cs

abbrev pub flat : List (List ℕ) → List ℕ
flat [] = []
flat (c ∷ cs) = c ++ flat cs

-- The headers of files that lie one behind the other from `off` on.
abbrev pub Lined : ℕ → List Header → List (List ℕ) → Type 0
Lined off [] [] = Unit
Lined off (h ∷ hs) (c ∷ cs) =
    (h.offset ≡ off)
    × (h.size ≡ length c)
    × (length h.name ≡ 128)
    × (length h.pad ≡ 3)
    × Lined (off + length c) hs cs
Lined off [] (c ∷ cs) = ⊥
Lined off (h ∷ hs) [] = ⊥

length-copy_name :
    (name old : List ℕ) → length name < 128 → length old ≡ 128 → length (copy_name name old) ≡ 128
length-copy_name name old short frame = omega (
  arith,
  length-append {0} name (0 ∷ drop (length name + 1) old),
  length-drop {0} (length name + 1) old,
)

abbrev made : Header → List ℕ → ℕ → List ℕ → Header
made h n off c = record h { name = copy_name n h.name; offset = off; size = length c; magic = 191 }

make_headers-step :
    (names : List (List ℕ)) (hs : List Header) (fopen : List ℕ → Option (List ℕ)) (old : ℕ → Header)
    (i off : ℕ) (n c : List ℕ)
    → fopen n ≡ some c
    → off + length c < 2 ^ 32
    → make_headers fopen old (i + 1) (off + length c) names ≡ some hs
    → make_headers fopen old i off (n ∷ names) ≡ some (made (old i) n off c ∷ hs)
unfolding make_headers
make_headers-step names hs fopen old i off n c found small run =
    let w : (off + length c) % 2 ^ 32 ≡ off + length c = omega arith in
    let s : length c % 2 ^ 32 ≡ length c = omega arith in rw (found, w, run, make_headers, s) refl

pub make_headers-Lined :
    (names cs : List (List ℕ)) (fopen : List ℕ → Option (List ℕ)) (old : ℕ → Header) (i off : ℕ)
    → Opens fopen names cs
    → IsFrame old
    → off + total cs < 2 ^ 32
    → (hs : List Header) × (make_headers fopen old i off names ≡ some hs) × Lined off hs cs
unfolding make_headers
make_headers-Lined [] [] fopen old i off opens frame small = ([], refl, tt)
make_headers-Lined [] (c ∷ cs) fopen old i off opens frame small = absurd opens
make_headers-Lined (n ∷ ns) [] fopen old i off opens frame small = absurd opens
make_headers-Lined (n ∷ ns) (c ∷ cs) fopen old i off (found, short, opens) frame small =
    let (hs, run, lined) =
      make_headers-Lined ns cs fopen old (i + 1) (off + length c) opens frame (omega arith) in
    (
      made (old i) n off c ∷ hs,
      make_headers-step ns hs fopen old i off n c found (omega arith) run,
      (refl, refl, length-copy_name n (old i).name short (frame i).0, (frame i).1, lined),
    )

pub contents-flat :
    (names cs : List (List ℕ)) (fopen : List ℕ → Option (List ℕ))
    → Opens fopen names cs
    → contents fopen names ≡ flat cs
unfolding contents
contents-flat [] [] fopen opens = refl
contents-flat [] (c ∷ cs) fopen opens = absurd opens
contents-flat (n ∷ ns) [] fopen opens = absurd opens
contents-flat (n ∷ ns) (c ∷ cs) fopen (found, short, opens) =
    rw found (ap (◌++◌ c) (contents-flat ns cs fopen opens))

pub length-Opens :
    (names cs : List (List ℕ)) (fopen : List ℕ → Option (List ℕ))
    → Opens fopen names cs
    → length cs ≡ length names
length-Opens [] [] fopen opens = refl
length-Opens [] (c ∷ cs) fopen opens = absurd opens
length-Opens (n ∷ ns) [] fopen opens = absurd opens
length-Opens (n ∷ ns) (c ∷ cs) fopen (found, short, opens) = ap suc (length-Opens ns cs fopen opens)

length-header_bytes :
    (h : Header) → length h.name ≡ 128 → length h.pad ≡ 3 → length (header_bytes h) ≡ 140
length-header_bytes h name pad = omega (
  arith,
  length-append {0} h.name (h.pad ++ (word_bytes h.offset ++ word_bytes h.size)),
  length-append {0} h.pad (word_bytes h.offset ++ word_bytes h.size),
)

pub length-all_headers :
    (cs : List (List ℕ)) (hs : List Header) (off : ℕ)
    → Lined off hs cs
    → length (all_headers hs) ≡ 140 * length cs
length-all_headers [] [] off lined = refl
length-all_headers [] (h ∷ hs) off lined = absurd lined
length-all_headers (c ∷ cs) [] off lined = absurd lined
length-all_headers (c ∷ cs) (h ∷ hs) off (o, s, name, pad, lined) = omega (
  arith,
  length-append {0} (header_bytes h) (all_headers hs),
  length-header_bytes h name pad,
  length-all_headers cs hs (off + length c) lined,
)

offset_bytes :
    (m : Memory) (a : ℕ) (h : Header)
    → length h.name ≡ 128
    → length h.pad ≡ 3
    → At m a (header_bytes h)
    → At m (a + 132) (word_bytes h.offset)
offset_bytes m a h name pad (e, at) =
    let behind = word_bytes h.offset ++ word_bytes h.size in
    let (first, more) = At-split m (a + 1) h.name (h.pad ++ behind) at in
    let (free, words) = At-split m (a + 1 + length h.name) h.pad behind more in
    let p : a + 1 + length h.name + length h.pad ≡ a + 132 = omega arith in
    (At-split m (a + 132) (word_bytes h.offset) (word_bytes h.size) (rw p at words)).0

-- The offset of the file behind `before`.
pub all_headers-offset :
    (before behind : List (List ℕ)) (c : List ℕ) (hs : List Header) (m : Memory) (a off : ℕ)
    → At m a (all_headers hs)
    → Lined off hs (before ++ c ∷ behind)
    → At m (a + 140 * length before + 132) (word_bytes (off + total before))
all_headers-offset [] behind c [] m a off at lined = absurd lined
all_headers-offset [] behind c (h ∷ hs) m a off at (o, s, name, pad, lined) =
    let z : a + 140 * 0 + 132 ≡ a + 132 = omega arith in
    let y : off + 0 ≡ h.offset = omega arith in
    rw (z, y) (offset_bytes m a h name pad (At-split m a (header_bytes h) (all_headers hs) at).0)
all_headers-offset (b ∷ before) behind c [] m a off at lined = absurd lined
all_headers-offset (b ∷ before) behind c (h ∷ hs) m a off at (o, s, name, pad, lined) =
    let back = (At-split m a (header_bytes h) (all_headers hs) at).1 in
    let e : a + length (header_bytes h) ≡ a + 140 = omega (arith, length-header_bytes h name pad) in
    let p : a + 140 + 140 * length before + 132 ≡ a + 140 * suc (length before) + 132 =
      omega arith in
    let q : off + length b + total before ≡ off + (length b + total before) = omega arith in
    rw (p, q) at
      (all_headers-offset before behind c hs m (a + 140) (off + length b)
        (subst (λ x. At m x (all_headers hs)) e back) lined)

-- The content of the file behind `before`.
pub flat-content :
    (before behind : List (List ℕ)) (c : List ℕ) (m : Memory) (a : ℕ)
    → At m a (flat (before ++ c ∷ behind))
    → At m (a + total before) c
flat-content [] behind c m a at =
    let z : a + 0 ≡ a = omega arith in rw z (At-split m a c (flat behind) at).0
flat-content (b ∷ before) behind c m a at =
    let back = (At-split m a b (flat (before ++ c ∷ behind)) at).1 in
    let e : a + length b + total before ≡ a + (length b + total before) = omega arith in
    rw e at (flat-content before behind c m (a + length b) back)
