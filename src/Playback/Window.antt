-- ===== src/Playback/Window.antt =====
-- What the turn takes out of the playback buffer, seen as a part of the whole line of audio.
use mod_openai_realtime.Base.{
  ℕ, ◌-◌, ◌*◌, ◌≤◌, ◌<◌, min, ◌≡◌, sym, ap, ◌⊎◌, inl, inr, [], ◌++◌, arith, leb, ◌==◌, Bool-cases,
  Bytes, length, length-append, take, drop, take_all, drop_all, take-append, drop-append,
  append-nil,
}

-- The first `n` bytes of `xs ++ rest` are those of `xs`, if `xs` is long enough or there is no rest.
module _ (n : ℕ) (xs rest : Bytes) where
  abbrev pub Suffices : Type 0
  Suffices = (n * 2 ≤ length xs) ⊎ (rest ≡ [])

  pub take_window : Suffices → take (min (length xs) n) xs ≡ take n (xs ++ rest)
  take_window (inl h) =
      let e : min (length xs) n ≡ n = omega arith in
      rw e (sym (take-append n xs rest (omega arith)))
  take_window (inr h) =
      rw (h, append-nil xs)
        (elim (Bool-cases (leb n (length xs))) [
          | inl le ↦ let e : min (length xs) n ≡ n = ground arith in rw e
          | inr gt ↦
              let e : min (length xs) n ≡ length xs = ground arith in
              rw (e, take_all (length xs) xs (omega arith), take_all n xs (ground arith))
        ])

  pub drop_window : Suffices → drop (min (length xs) n) xs ++ rest ≡ drop n (xs ++ rest)
  drop_window (inl h) =
      let e : min (length xs) n ≡ n = omega arith in
      rw e (sym (drop-append n xs rest (omega arith)))
  drop_window (inr h) =
      rw (h, append-nil xs, append-nil _)
        (elim (Bool-cases (leb n (length xs))) [
          | inl le ↦ let e : min (length xs) n ≡ n = ground arith in rw e
          | inr gt ↦
              let e : min (length xs) n ≡ length xs = ground arith in
              rw (e, drop_all (length xs) xs (omega arith), drop_all n xs (ground arith))
        ])

  pub gap_window : Suffices → n - min (length xs) n ≡ n - length (xs ++ rest)
  gap_window (inl h) = omega (arith, length-append xs rest)
  gap_window (inr h) = omega (arith, length-append xs rest, ap length h)

  pub empty_window : 0 < n → Suffices → (length xs == 0) ≡ (length (xs ++ rest) == 0)
  empty_window pos (inl h) = ground (arith, length-append xs rest)
  empty_window pos (inr h) = ground (arith, length-append xs rest, ap length h)
