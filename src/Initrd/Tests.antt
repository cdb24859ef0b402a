-- ===== src/Initrd/Tests.antt =====
-- Runs of the ram disk's functions and witnesses of their properties.
use toutatis.Common.{
  ℕ, ◌+◌, ◌-◌, ◌*◌, ◌≡◌, refl, arith, true, List, [], ◌∷◌, get_or, replicate, length-replicate,
  Option, none, some, leb, if◌then◌else◌,
}
use toutatis.CString.{Memory}
use toutatis.CString.Bytes.{At, At-get_or}
use toutatis.Initrd.{
  Header, make_headers, contents, make_initrd, read_word, offset_at, initrd_parse,
}
use toutatis.Initrd.Image.{IsFrame}
use toutatis.Initrd.Offsets.{initrd_parse-make_initrd}

-- A host on which every name is a file of two bytes.
abbrev host : List ℕ → Option (List ℕ)
host name = some (7 ∷ 8 ∷ [])

abbrev frame : ℕ → Header
frame i = record { magic = 0; name = replicate 128 0; pad = replicate 3 0; offset = 0; size = 0 }

frame-IsFrame : IsFrame frame
frame-IsFrame = λ i. (length-replicate {0} {A = ℕ} 128 0, length-replicate {0} {A = ℕ} 3 0)

abbrev image_or : Option (List ℕ) → List ℕ
image_or none = []
image_or (some image) = image

-- The image of the file `a`.
abbrev image : List ℕ
image = image_or (make_initrd host frame ((b'a' ∷ []) ∷ []))

image_built : make_initrd host frame ((b'a' ∷ []) ∷ []) ≡ some image
unfolding make_initrd make_headers contents
image_built = refl

abbrev loaded : Memory
loaded x = if leb 4096 x then get_or image (x - 4096) 0 else 0

loaded-At : At loaded 4096 image
loaded-At = At-get_or loaded 4096 image (λ j h.
    let e : 4096 + j - 4096 ≡ j = omega arith in
    let t : leb 4096 (4096 + j) ≡ true = ground arith in rw (t, e) refl)

initrd_parse-make_initrd_example :
    (files : ℕ) × At (initrd_parse loaded 4096) files (7 ∷ 8 ∷ [])
    × (read_word (initrd_parse loaded 4096) (offset_at 4096 0) + 7 ≡ files + 140 * (64 - 1))
initrd_parse-make_initrd_example =
    initrd_parse-make_initrd host frame ((b'a' ∷ []) ∷ []) [] [] (7 ∷ 8 ∷ []) image loaded 4096
      (refl, omega arith, tt) frame-IsFrame (omega arith) (omega arith) image_built loaded-At
