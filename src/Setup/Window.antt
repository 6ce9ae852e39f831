-- ===== src/Setup/Window.antt =====
-- How many packets STREAM_BUFFER_SIZE makes the capture aggregate.
use mod_openai_realtime.Base.{
  ℕ, ◌*◌, ◌≤◌, ◌≡◌, subst, ◌↔◌, some, arith, Bytes, Option-cases, inl, inr,
}
use mod_openai_realtime.Numeral.{strtol, whole_value}
use mod_openai_realtime.Numeral.Exact.{IsNumeral, whole_value-IsNumeral}
use mod_openai_realtime.Setup.{rtp_packets_of, packets}

packets-some : (n ms : ℕ) → 2 ≤ n → packets (some ms) ≡ n → ms ≡ 20 * n
packets-some n ms more h = ground arith

-- For any text and any number of packets above 1: STREAM_BUFFER_SIZE makes the capture aggregate that
-- many packets exactly when the text is a decimal numeral (blanks in front and a plus sign allowed) of
-- their duration, 20 ms each, and they are at most 50.
pub rtp_packets_of-IsNumeral :
    (text : Bytes) (n : ℕ)
    → 2 ≤ n
    → (rtp_packets_of (some text) ≡ n) ↔ (IsNumeral text (20 * n) × (n ≤ 50))
unfolding rtp_packets_of
rtp_packets_of-IsNumeral text n more = (
  λ h. elim (Option-cases (whole_value 20 1000 (strtol text))) [
    | inl e ↦ ground arith
    | inr (ms, e) ↦
        let (numeral, low, high) =
          (whole_value-IsNumeral 20 1000 ms text (omega arith) (omega arith)).0 e in
        let same : ms ≡ 20 * n = packets-some n ms more (ground arith) in
        (subst (IsNumeral text) same numeral, omega (arith, same, high))
  ],
  λ (numeral, few).
      let e =
        (whole_value-IsNumeral 20 1000 (20 * n) text (omega arith) (omega arith)).1
          (numeral, omega (arith, more), omega (arith, few)) in
      rw (rtp_packets_of, e) (ground arith),
)
