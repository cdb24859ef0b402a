-- ===== src/Format/Plain.antt =====
-- `vsprintf` of kernel/vsprintf.c on a format without a `%`.
use toutatis.Common.{
  ℕ, zero, suc, ◌+◌, ◌%◌, ◌^◌, ◌≤◌, ◌<◌, ◌≡◌, ◌≢◌, ◌⊎◌, inl, inr, refl, sym, ◌∙◌, arith, true,
  false, ◌||◌, some, ◌==◌, leb,
}
use mathlib.Core.Path.{subst}
use native.Mathlib.Decide.{ℕ_discrete}
use toutatis.Common.Store.{update, update_self, update_ne}
use toutatis.CString.{Memory, memset}
use toutatis.CString.Copy.{memset-filled}
use toutatis.CString.Measure.{IsString, strlen_lem}
use toutatis.Format.Vsprintf.{State, round, vsprintf_loop, vsprintf}

-- Two stretches of memory without a byte in common.
abbrev pub Apart : ℕ → ℕ → ℕ → ℕ → Type 0
Apart x n y k = (x + n ≤ y) ⊎ (y + k ≤ x)

-- The string at `fmt` and the byte behind its zero hold no `%`.
pub record IsPlain (m : Memory) (fmt n : ℕ) : Type 0 where
  pub string : IsString m fmt n
  pub no_percent : (j : ℕ) → j < n + 2 → m (fmt + j) ≢ b'%'

-- `k` bytes of `m` at `fmt` stand at `buf`, and the rest is that of `m`.
pub record Copied (m m' : Memory) (buf fmt k : ℕ) : Type 0 where
  pub same : (j : ℕ) → j < k → m' (buf + j) ≡ m (fmt + j)
  pub others : (x : ℕ) → (x < buf) ⊎ (buf + k ≤ x) → m' x ≡ m x

abbrev state_at : Memory → ℕ → State
state_at m i = record { memory = m; i = i; loc = i; arg = 0 }

Copied-suc :
    (m m' : Memory) (buf fmt k : ℕ)
    → Copied m m' buf fmt k
    → m' (fmt + k) ≡ m (fmt + k)
    → Copied m (update m' (buf + k) (m' (fmt + k))) buf fmt (suc k)
Copied-suc m m' buf fmt k c e = record {
  same = λ j h. elim (ℕ_discrete j k) [
    | yes p ↦ rw p (update_self m' (buf + k) (m' (fmt + k)) ∙ e)
    | no p ↦
        update_ne m' (buf + k) (buf + j) (m' (fmt + k)) (λ q. p (omega arith))
        ∙ c.same j (omega arith)
  ];
  others = λ x away.
      update_ne m' (buf + k) x (m' (fmt + k))
        (λ q. elim away [ inl p ↦ absurd (omega arith) | inr p ↦ absurd (omega arith) ])
      ∙ c.others x (elim away [ inl p ↦ inl p | inr p ↦ inr (omega arith) ]);
}

-- The format is not touched.
Copied-format :
    (m m' : Memory) (buf fmt k n j : ℕ)
    → Copied m m' buf fmt k
    → Apart buf (n + 2) fmt (n + 2)
    → k ≤ n + 2
    → j < n + 2
    → m' (fmt + j) ≡ m (fmt + j)
Copied-format m m' buf fmt k n j c apart le h =
    c.others (fmt + j) (elim apart [ inl p ↦ inr (omega arith) | inr p ↦ inl (omega arith) ])

IsString-same :
    (m m' : Memory) (s n : ℕ)
    → IsString m s n
    → ((j : ℕ) → j < n + 2 → m' (s + j) ≡ m (s + j))
    → IsString m' s n
IsString-same m m' s n str same = record {
  content = λ j h e. str.content j h (sym (same j (omega arith)) ∙ e);
  stop = same n (omega arith) ∙ str.stop;
}

round-plain :
    (fuel : ℕ) (args : ℕ → ℕ) (buf fmt tmp i : ℕ) (m : Memory)
    → m (fmt + i) ≢ b'%'
    → i + 1 < 2 ^ 32
    → round fuel args buf fmt tmp (state_at m i)
      ≡ some (state_at (update m (buf + i) (m (fmt + i))) (i + 1))
unfolding round
round-plain fuel args buf fmt tmp i m ne h =
    let e : (m (fmt + i) == b'%') ≡ false = ground arith in
    let w : (i + 1) % 2 ^ 32 ≡ i + 1 = omega arith in rw (e, round, w) refl

loop-plain :
    (left rounds fuel : ℕ) (args : ℕ → ℕ) (buf fmt tmp n i : ℕ) (m m' : Memory)
    → IsPlain m fmt n
    → Apart buf (n + 2) fmt (n + 2)
    → Copied m m' buf fmt i
    → i + left ≡ n + 2
    → left < rounds
    → n < fuel
    → n + 2 < 2 ^ 32
    → (end : Memory) × (vsprintf_loop rounds fuel args buf fmt tmp (state_at m' i)
        ≡ some (state_at end (n + 2)))
      × Copied m end buf fmt (n + 2)
unfolding vsprintf_loop
loop-plain left zero fuel args buf fmt tmp n i m m' plain apart c e lt enough small =
    absurd (omega arith)
loop-plain zero (suc rounds) fuel args buf fmt tmp n i m m' plain apart c e lt enough small =
    let str =
      IsString-same m m' fmt n plain.string
        (λ j h. Copied-format m m' buf fmt i n j c apart (omega arith) h) in
    let done : leb i (n + 1) ≡ false = ground arith in
    let last : i ≡ n + 2 = omega arith in
    (
      m',
      rw (strlen_lem fuel m' fmt n str enough, vsprintf_loop, done, last) refl,
      subst (λ k. Copied m m' buf fmt k) last c,
    )
loop-plain (suc left) (suc rounds) fuel args buf fmt tmp n i m m' plain apart c e lt enough small =
    let same : (j : ℕ) → j < n + 2 → m' (fmt + j) ≡ m (fmt + j) =
      λ j h. Copied-format m m' buf fmt i n j c apart (omega arith) h in
    let str = IsString-same m m' fmt n plain.string same in
    let goes : leb i (n + 1) ≡ true = ground arith in
    let at : m' (fmt + i) ≡ m (fmt + i) = same i (omega arith) in
    let step =
      round-plain fuel args buf fmt tmp i m' (λ p. plain.no_percent i (omega arith) (sym at ∙ p))
        (omega arith) in
    let next = Copied-suc m m' buf fmt i c at in
    let one : suc i ≡ i + 1 = omega arith in
    let (end, run, all) =
      loop-plain left rounds fuel args buf fmt tmp n (i + 1) m (update m' (buf + i) (m' (fmt + i)))
        plain apart (subst (λ k. Copied m (update m' (buf + i) (m' (fmt + i))) buf fmt k) one next)
        (omega arith) (omega arith) enough small in
    (end, rw (strlen_lem fuel m' fmt n str enough, vsprintf_loop, goes, step) run, all)

-- If neither a format of `n` bytes nor the byte behind its final zero holds a percent sign, `vsprintf`
-- ends: the format is copied with its zero and the byte behind it, the result is `n + 2`, and no other
-- byte outside of `tmp` is changed. The copy and `tmp` must not meet the format.
pub vsprintf-plain :
    (fuel : ℕ) (m : Memory) (buf fmt : ℕ) (args : ℕ → ℕ) (tmp n : ℕ)
    → IsPlain m fmt n
    → Apart buf (n + 2) fmt (n + 2)
    → Apart tmp 1024 fmt (n + 2)
    → (buf ≢ 0) × (fmt ≢ 0)
    → n + 2 < fuel
    → n + 2 < 2 ^ 32
    → (end : Memory) × (vsprintf fuel m buf fmt args tmp ≡ some (end, n + 2))
      × ((j : ℕ) → j < n + 2 → end (buf + j) ≡ m (fmt + j))
      × ((x : ℕ) → (x < buf) ⊎ (buf + (n + 2) ≤ x) → (x < tmp) ⊎ (tmp + 1024 ≤ x) → end x ≡ m x)
unfolding vsprintf
vsprintf-plain fuel m buf fmt args tmp n plain apart away (b, f) enough small =
    let m0 = memset m tmp 0 1024 in
    let clear : (x : ℕ) → (x < tmp) ⊎ (tmp + 1024 ≤ x) → m0 x ≡ m x =
      λ x out. memset-filled m tmp 0 1024 x ∙ ground arith in
    let format : (j : ℕ) → j < n + 2 → m0 (fmt + j) ≡ m (fmt + j) = λ j h.
      clear (fmt + j) (elim away [ inl p ↦ inr (omega arith) | inr p ↦ inl (omega arith) ]) in
    let plain0 : IsPlain m0 fmt n = record {
      string = IsString-same m m0 fmt n plain.string format;
      no_percent = λ j h p. plain.no_percent j h (sym (format j h) ∙ p);
    } in
    let start : Copied m0 m0 buf fmt 0 = record {
      same = λ j h. absurd (omega arith);
      others = λ x out. refl;
    } in
    let (end, run, all) =
      loop-plain (n + 2) fuel fuel args buf fmt tmp n 0 m0 m0 plain0 apart start (omega arith)
        enough (omega arith) small in
    let null : (buf == 0 || fmt == 0) ≡ false = ground arith in
    (
      end,
      rw (null, run, vsprintf) refl,
      λ j h. all.same j h ∙ format j h,
      λ x out free. all.others x out ∙ clear x free,
    )
