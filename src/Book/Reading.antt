-- ===== src/Book/Reading.antt =====
-- crates/otp-book/src/lib.rs: what `pread_exact` reads, and that it ends.
use jbuu.Base.{
  All, ℕ, zero, suc, ◌+◌, ◌-◌, ◌≤◌, ◌<◌, ◌≡◌, ◌≢◌, refl, sym, ap, ap₂, ◌∙◌, subst, arith, false,
  ltb, ltb→lt, Bool-cases, ◌⊎◌, inl, inr, [], ◌∷◌, ◌++◌, length, take, drop, take-drop, drop-drop,
  length-append, u64_limit,
}
use jbuu.Base.Result.{Result, ok, err}
use jbuu.Base.Actions.{Ends}
use jbuu.Base.Bytes.{IsByte, Bytes}
use jbuu.Book.{
  IoKind, not_found, interrupted, other_io, book_io, BookStop, failed, Stat, BookFile,
  saturating_add, resume, fill, pread_exact,
}

-- What the reader relies on of a regular file that nobody changes: a read that succeeds answers the
-- bytes at its offset, at most as many as it was asked for, and none only at the end of the file or
-- where it was asked for none; only a bounded number of reads is interrupted.
pub record IsFile {F : Type 0} (file : BookFile F) : Type 0 where
  pub content : F → Bytes
  pub interrupts : F → ℕ
  pub content-IsByte : (s : F) → All IsByte (content s)
  pub reads :
      (n offset : ℕ) (s t : F) (bs : Bytes)
      → file.pread n offset s ≡ (ok bs, t)
      → (bs ≡ take (length bs) (drop offset (content s))) × (length bs ≤ n)
  pub ends :
      (n offset : ℕ) (s t : F)
      → file.pread n offset s ≡ (ok [], t)
      → (n ≡ 0) ⊎ (length (content s) ≤ offset)
  pub pread_content : (n offset : ℕ) (s : F) → content (file.pread n offset s).1 ≡ content s
  pub pread_interrupts :
      (n offset : ℕ) (s : F) → interrupts (file.pread n offset s).1 ≤ interrupts s
  pub interrupted_less :
      (n offset : ℕ) (s t : F)
      → file.pread n offset s ≡ (err interrupted, t)
      → interrupts t < interrupts s
  pub stat_size : (s t : F) (st : Stat) → file.stat s ≡ (ok st, t) → st.size ≡ length (content s)
  pub stat_content : (s : F) → content (file.stat s).1 ≡ content s
  pub stat_interrupts : (s : F) → interrupts (file.stat s).1 ≤ interrupts s

-- A call of the file that has failed, and was not interrupted.
pub data CallFailed {F : Type 0} (file : BookFile F) : Type 0 where
  stat_failed : (e : IoKind) (s t : F) → file.stat s ≡ (err e, t) → CallFailed file
  pread_failed :
      (e : IoKind) (n offset : ℕ) (s t : F)
      → e ≢ interrupted
      → file.pread n offset s ≡ (err e, t)
      → CallFailed file

-- The ends of reading `n` bytes at an offset of a file with a content: those bytes, an error of the
-- file, or the end of the content.
pub data Filled {F : Type 0} (file : BookFile F) (c : Bytes) (n offset : ℕ)
    : Result Bytes BookStop → Type 0 where
  whole :
      {bs : Bytes} → bs ≡ take n (drop offset c) → length bs ≡ n → Filled file c n offset (ok bs)
  broken : CallFailed file → Filled file c n offset (err (failed book_io))
  cut_short : length c < offset + n → Filled file c n offset (err (failed book_io))

module _ {F : Type 0} (file : BookFile F) (is : IsFile file) where
  -- The answer, the content that is left as it was, and the interrupts that are left.
  abbrev pub FilledAt : Bytes → ℕ → ℕ → ℕ → Result Bytes BookStop → F → Type 0
  FilledAt c k n offset r t = Filled file c n offset r × (is.content t ≡ c) × (is.interrupts t ≤ k)

  left_content :
      {c : Bytes} {m at : ℕ} (s : F) {t : F} {r : Result Bytes IoKind}
      → is.content s ≡ c
      → file.pread m at s ≡ (r, t)
      → is.content t ≡ c
  left_content {c} {m} {at} s hc e =
      sym (ap (λ (p : Result Bytes IoKind × F). is.content p.1) e) ∙ is.pread_content m at s ∙ hc

  left_interrupts :
      {k m at : ℕ} (s : F) {t : F} {r : Result Bytes IoKind}
      → is.interrupts s ≤ k
      → file.pread m at s ≡ (r, t)
      → is.interrupts t ≤ k
  left_interrupts {k} {m} {at} s hk e = omega (
    arith,
    hk,
    is.pread_interrupts m at s,
    ap (λ (p : Result Bytes IoKind × F). is.interrupts p.1) e,
  )

  module _ (c : Bytes) (n offset : ℕ) (fits : offset + n < u64_limit) where
    saturating_add-fits : (a b : ℕ) → a + b < u64_limit → saturating_add a b ≡ a + b
    saturating_add-fits a b h = ground arith

    grown :
        (filled more : Bytes)
        → filled ≡ take (length filled) (drop offset c)
        → more ≡ take (length more) (drop (offset + length filled) c)
        → filled ++ more ≡ take (length (filled ++ more)) (drop offset c)
    grown filled more h k =
        ap₂ ◌++◌ h (k ∙ ap (take (length more)) (sym (drop-drop offset (length filled) c)))
        ∙ take-drop (length filled) (length more) (drop offset c)
        ∙ ap (λ (m : ℕ). take m (drop offset c)) (sym (length-append filled more))

    -- What is filled when the loop ends.
    full :
        (filled : Bytes)
        → length filled ≤ n
        → filled ≡ take (length filled) (drop offset c)
        → ltb (length filled) n ≡ false
        → Filled file c n offset (ok filled)
    full filled short h done =
        let e : length filled ≡ n = ground arith in
        whole (h ∙ ap (λ (m : ℕ). take m (drop offset c)) e) e

    failed_call :
        (e : IoKind) (m at : ℕ) (s t : F)
        → e ≢ interrupted
        → file.pread m at s ≡ (err e, t)
        → Filled file c n offset (err (failed book_io))
    failed_call e m at s t other run = broken (pread_failed e m at s t other run)

    -- The statement of the loop, for one fuel.
    abbrev FillsAt : ℕ → Type 0
    FillsAt fuel =
        (filled : Bytes) (s : F) (k : ℕ)
        → is.content s ≡ c
        → is.interrupts s ≤ k
        → length filled ≤ n
        → filled ≡ take (length filled) (drop offset c)
        → n + is.interrupts s ≤ fuel + length filled
        → Ends (fill file fuel n filled (offset + length filled)) s (FilledAt c k n offset)

    fill_step :
        (fuel : ℕ)
        → FillsAt fuel
        → (filled : Bytes) (s : F) (k : ℕ) → is.content s ≡ c
        → is.interrupts s ≤ k
        → length filled ≤ n
        → filled ≡ take (length filled) (drop offset c)
        → n + is.interrupts s ≤ suc fuel + length filled
        → length filled < n
        → (p : Result Bytes IoKind × F)
        → file.pread (n - length filled) (offset + length filled) s ≡ p
        → (let q =
              resume
                (λ more.
                  fill file fuel n
                    (filled ++ more)
                    (saturating_add (offset + length filled) (length more)))
                (fill file fuel n filled (offset + length filled))
                p in
            FilledAt c k n offset q.0 q.1)
    fill_step fuel rest filled s k hc hk short h enough lt (ok [], t) e = (
      elim (is.ends (n - length filled) (offset + length filled) s t e) [
        | inl nothing ↦ absurd (omega (arith, nothing, lt))
        | inr past ↦ cut_short (omega (arith, past, lt, ap (λ (x : Bytes). length x) hc))
      ],
      left_content s hc e,
      left_interrupts s hk e,
    )
    fill_step fuel rest filled s k hc hk short h enough lt (ok (b ∷ bs), t) e =
        let more = b ∷ bs in
        let got = is.reads (n - length filled) (offset + length filled) s t more e in
        let wider : length (filled ++ more) ≡ length filled + length more =
          length-append filled more in
        let place : saturating_add (offset + length filled) (length more)
            ≡ offset + length (filled ++ more) =
          saturating_add-fits (offset + length filled) (length more)
            (omega (arith, got.1, fits, lt))
          ∙ omega (arith, wider) in
        subst (λ (o : ℕ). Ends (fill file fuel n (filled ++ more) o) t (FilledAt c k n offset))
          (sym place)
          (rest (filled ++ more) t k (left_content s hc e) (left_interrupts s hk e)
            (omega (arith, wider, got.1, lt))
            (grown filled more h
              (got.0 ∙ ap (λ (x : Bytes). take (length more) (drop (offset + length filled) x)) hc))
            (omega (arith, wider, enough, left_interrupts {k = is.interrupts s} s (omega arith) e)))
    fill_step fuel rest filled s k hc hk short h enough lt (err interrupted, t) e =
        rest filled t k (left_content s hc e) (left_interrupts s hk e) short h (
          omega
            (arith, enough, is.interrupted_less (n - length filled) (offset + length filled) s t e))
    fill_step fuel rest filled s k hc hk short h enough lt (err not_found, t) e = (
      failed_call not_found (n - length filled) (offset + length filled) s t (λ x. cc) e,
      left_content s hc e,
      left_interrupts s hk e,
    )
    fill_step fuel rest filled s k hc hk short h enough lt (err other_io, t) e = (
      failed_call other_io (n - length filled) (offset + length filled) s t (λ x. cc) e,
      left_content s hc e,
      left_interrupts s hk e,
    )

    fill-FilledAt : (fuel : ℕ) → FillsAt fuel
    unfolding fill
    fill-FilledAt zero filled s k hc hk short h enough = elim (Bool-cases (ltb (length filled) n)) [
      | inl more ↦ absurd (omega (arith, ltb→lt _ _ more, enough))
      | inr done ↦ rw done (full filled short h done, hc, hk)
    ]
    fill-FilledAt (suc fuel) filled s k hc hk short h enough =
        elim (Bool-cases (ltb (length filled) n)) [
          | inl more ↦ rw more (
              fill_step fuel (fill-FilledAt fuel) filled s k hc hk short h enough (ltb→lt _ _ more)
                (file.pread (n - length filled) (offset + length filled) s) refl)
          | inr done ↦ rw done (full filled short h done, hc, hk)
        ]

  -- `pread_exact` ends within as many reads as it has bytes to fill and as there are interrupts: with
  -- the bytes at the offset, or with an error of the file or the end of the content.
  pub pread_exact-FilledAt :
      (c : Bytes) (fuel n offset : ℕ) (s : F) (k : ℕ)
      → offset + n < u64_limit
      → is.content s ≡ c
      → is.interrupts s ≤ k
      → n + k ≤ fuel
      → Ends (pread_exact file fuel n offset) s (FilledAt c k n offset)
  unfolding pread_exact
  pread_exact-FilledAt c fuel n offset s k fits hc hk enough =
      let e : offset ≡ offset + 0 = omega arith in
      subst (λ (o : ℕ). Ends (fill file fuel n [] o) s (FilledAt c k n offset)) (sym e)
        (fill-FilledAt c n offset fits fuel [] s k hc hk (omega arith) refl (omega arith))
