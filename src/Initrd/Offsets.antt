-- ===== src/Initrd/Offsets.antt =====
-- The offsets of the ram disk, from src/make_initrd.c to initrd_parse of kernel/initrd.c.
use toutatis.Common.{
  ℕ, zero, suc, ◌+◌, ◌-◌, ◌*◌, ◌%◌, ◌^◌, ◌≤◌, ◌<◌, ◌≡◌, ◌⊎◌, inl, inr, refl, sym, ◌∙◌, ap, arith,
  List, [], ◌∷◌, ◌++◌, length, length-append, Option, some,
}
use mathlib.Core.Path.{subst}
use mathlib.Core.Option.{some-injective}
use native.Mathlib.Decide.{ℕ_discrete}
use toutatis.CString.{Memory}
use toutatis.CString.Bytes.{At, At-same, At-split}
use toutatis.Initrd.{
  Header, word_bytes, all_headers, contents, make_initrd, read_word, write_word, offset_at,
  parse_from, initrd_parse,
}
use toutatis.Initrd.Words.{read_word-At, write_word-others, read_word-write_word, read_word-same}
use toutatis.Initrd.Image.{
  Opens, IsFrame, total, flat, Lined, make_headers-Lined, contents-flat, length-Opens,
  length-all_headers, all_headers-offset, flat-content,
}

-- The bytes outside of the headers from `i` on are left alone.
parse_from-others :
    (left : ℕ) (m : Memory) (location i x : ℕ)
    → (x < offset_at location i) ⊎ (offset_at location (i + left) ≤ x + 136)
    → parse_from m location i left x ≡ m x
unfolding parse_from
parse_from-others zero m location i x out = refl
parse_from-others (suc left) m location i x out =
    parse_from-others left
      (write_word m (offset_at location i)
        ((read_word m (offset_at location i) + location) % 2 ^ 32))
      location (i + 1) x (elim out [ inl p ↦ inl (omega arith) | inr p ↦ inr (omega arith) ])
    ∙ write_word-others m (offset_at location i)
        ((read_word m (offset_at location i) + location) % 2 ^ 32) x
        (elim out [ inl p ↦ inl p | inr p ↦ inr (omega arith) ])

-- Each header's offset is moved by the location.
parse_from-offset :
    (left : ℕ) (m : Memory) (location i k : ℕ)
    → i ≤ k
    → k < i + left
    → read_word (parse_from m location i left) (offset_at location k)
      ≡ (read_word m (offset_at location k) + location) % 2 ^ 32
unfolding parse_from
parse_from-offset zero m location i k from below = absurd (omega arith)
parse_from-offset (suc left) m location i k from below =
    let a = offset_at location i in
    let v = (read_word m a + location) % 2 ^ 32 in
    let m1 = write_word m a v in
    elim (ℕ_discrete k i) [
      | yes e ↦ rw e (
          read_word-same m1 (parse_from m1 location (i + 1) left) a
            (λ x low high. parse_from-others left m1 location (i + 1) x (inl (omega arith)))
          ∙ read_word-write_word m a v (omega arith))
      | no ne ↦
          let same : read_word m1 (offset_at location k) ≡ read_word m (offset_at location k) =
            read_word-same m m1 (offset_at location k)
              (λ x low high. write_word-others m a v x (inr (omega arith))) in
          parse_from-offset left m1 location (i + 1) k (omega arith) (omega arith)
          ∙ ap (λ w. (w + location) % 2 ^ 32) same
    ]

-- The parts of an image in memory: the number of files, the offset of a file, and its content.
image-parts :
    (names before behind : List (List ℕ)) (c : List ℕ) (hs : List Header) (m : Memory) (a : ℕ)
    (files : List ℕ)
    → At m a (
        (b'I' ∷ b'N' ∷ b'I' ∷ b'T' ∷ b'R' ∷ b'D' ∷ 0 ∷ [])
        ++ (word_bytes (length names) ++ (all_headers hs ++ files)))
    → Lined 8964 hs (before ++ c ∷ behind)
    → files ≡ flat (before ++ c ∷ behind)
    → length (before ++ c ∷ behind) ≡ length names
    → At m (a + 7) (word_bytes (length names))
      × At m (offset_at a (length before)) (word_bytes (8964 + total before))
      × At m (a + 11 + 140 * length names + total before) c
image-parts names before behind c hs m a files at lined e len =
    let magic = b'I' ∷ b'N' ∷ b'I' ∷ b'T' ∷ b'R' ∷ b'D' ∷ 0 ∷ [] in
    let (first, rest) =
      At-split m a magic (word_bytes (length names) ++ (all_headers hs ++ files)) at in
    let (count, more) =
      At-split m (a + 7) (word_bytes (length names)) (all_headers hs ++ files) rest in
    let p : a + 7 + 4 ≡ a + 11 = omega arith in
    let (headers, file_bytes) = At-split m (a + 11) (all_headers hs) files (rw p at more) in
    let q : a + 11 + length (all_headers hs) ≡ a + 11 + 140 * length names =
      omega (arith, length-all_headers (before ++ c ∷ behind) hs 8964 lined) in
    (
      count,
      all_headers-offset before behind c hs m (a + 11) 8964 headers lined,
      flat-content before behind c m (a + 11 + 140 * length names) (rw e at (rw q at file_bytes)),
    )

length-behind :
    (before behind : List (List ℕ)) (c : List ℕ) → length before < length (before ++ c ∷ behind)
length-behind before behind c = omega (arith, length-append {0} before (c ∷ behind))

total-behind :
    (before behind : List (List ℕ)) (c : List ℕ)
    → total before + length c ≤ total (before ++ c ∷ behind)
total-behind [] behind c = omega arith
total-behind (b ∷ before) behind c = omega (arith, total-behind before behind c)

-- `initrd_parse` on `n` headers, with the content of a file behind them.
parsed :
    (n k before : ℕ) (c : List ℕ) (m : Memory) (location : ℕ)
    → At m (location + 7) (word_bytes n)
    → At m (offset_at location k) (word_bytes (8964 + before))
    → At m (location + 11 + 140 * n + before) c
    → k < n
    → n ≤ 64
    → location + 8964 + before < 2 ^ 32
    → (files : ℕ) × At (initrd_parse m location) files c
      × (read_word (initrd_parse m location) (offset_at location k) + 7 ≡ files + 140 * (64 - n))
unfolding initrd_parse
parsed n k before c m location count field content below few small =
    let e : initrd_parse m location ≡ parse_from m location 0 n =
      ap (parse_from m location 0) (read_word-At m (location + 7) n count (omega arith)) in
    let offset : read_word m (offset_at location k) ≡ 8964 + before =
      read_word-At m (offset_at location k) (8964 + before) field (omega arith) in
    let moved : read_word (parse_from m location 0 n) (offset_at location k)
        ≡ 8964 + before + location =
      parse_from-offset n m location 0 k (omega arith) (omega arith)
      ∙ ap (λ w. (w + location) % 2 ^ 32) offset
      ∙ omega arith in
    let kept =
      At-same m (parse_from m location 0 n) (location + 11 + 140 * n + before) c
        (λ j h.
          parse_from-others n m location 0 (location + 11 + 140 * n + before + j)
            (inr (omega arith)))
        content in
    (
      location + 11 + 140 * n + before,
      subst (λ (mem : Memory). At mem (location + 11 + 140 * n + before) c) (sym e) kept,
      subst
          (λ (mem : Memory).
            read_word mem (offset_at location k) + 7
            ≡ location + 11 + 140 * n + before + 140 * (64 - n))
          (sym e) (omega (arith, moved)),
    )

-- For an image of at most 64 files the offset that initrd_parse leaves for a file lies behind its
-- content by 140 bytes for each header that is missing, less 7 bytes.
pub initrd_parse-make_initrd :
    (fopen : List ℕ → Option (List ℕ)) (old : ℕ → Header) (names before behind : List (List ℕ))
    (c image : List ℕ) (m : Memory) (location : ℕ)
    → Opens fopen names (before ++ c ∷ behind)
    → IsFrame old
    → length names ≤ 64
    → location + 8964 + total (before ++ c ∷ behind) < 2 ^ 32
    → make_initrd fopen old names ≡ some image
    → At m location image
    → (files : ℕ) × At (initrd_parse m location) files c
      × (read_word (initrd_parse m location) (offset_at location (length before)) + 7
          ≡ files + 140 * (64 - length names))
unfolding make_initrd
initrd_parse-make_initrd fopen old names before behind c image m location opens frame few small
      built at =
    let (hs, run, lined) =
      make_headers-Lined names (before ++ c ∷ behind) fopen old 0 8964 opens frame (omega arith) in
    let whole =
      (b'I' ∷ b'N' ∷ b'I' ∷ b'T' ∷ b'R' ∷ b'D' ∷ 0 ∷ [])
      ++ (word_bytes (length names) ++ (all_headers hs ++ contents fopen names)) in
    let made : whole ≡ image = some-injective whole image (rw (run, make_initrd) at built) in
    let len = length-Opens names (before ++ c ∷ behind) fopen opens in
    let (count, field, content) =
      image-parts names before behind c hs m location (contents fopen names)
        (subst (At m location) (sym made) at) lined
        (contents-flat names (before ++ c ∷ behind) fopen opens) len in
    let within = length-behind before behind c in
    let inside = total-behind before behind c in
    parsed (length names) (length before) (total before) c m location count field content
      (omega arith) few (omega arith)
