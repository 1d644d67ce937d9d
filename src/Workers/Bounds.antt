-- ===== src/Workers/Bounds.antt =====
-- Bounds on the wait, and what a decoded message guarantees.
use jungle_wager_engine.Base.{
  ℕ, ◌+◌, ◌*◌, ◌/◌, ◌^◌, ◌≤◌, ◌<◌, true, false, ◌≡◌, arith, Option, Option-cases, inl, inr, List,
  Text, is_empty, eq_text, any, ltb, if◌then◌else◌, Bool-cases,
}
use jungle_wager_engine.Domain.Errors.{Result, Result-cases, ok}
use jungle_wager_engine.Domain.Money.Parse.{parse_money}
use jungle_wager_engine.Application.{Command, InboxMessage, normalize_command}
use jungle_wager_engine.Store.Apply.{second}
use jungle_wager_engine.Workers.{backoff, RequestEnvelope, decode, envelope_is_bad, command_of}

drawn : (d r : ℕ) → r < d / 2 + 1 → (d / 2 + r ≤ d) × (d / 2 ≤ d / 2 + r)
drawn d r h = (omega arith, omega arith)

-- A wait is at most the given maximum and at most the doubled second, and at least half
-- the maximum once that is reached, if the draw is below its bound.
pub backoff_bounds :
    (attempt max : ℕ) (draw : ℕ → ℕ)
    → ((n : ℕ) → 0 < n → draw n < n)
    → (backoff attempt max draw ≤ max)
      × (backoff attempt max draw ≤ second * 2 ^ (if ltb 20 attempt then 20 else attempt))
      × (max ≤ second * 2 ^ (if ltb 20 attempt then 20 else attempt)
          → max / 2 ≤ backoff attempt max draw)
unfolding backoff
backoff_bounds attempt max draw h =
    let full = second * 2 ^ (if ltb 20 attempt then 20 else attempt) in
    elim (Bool-cases (ltb max full)) [
      | inl capped ↦ ground (arith, drawn max (draw (max / 2 + 1)) (h (max / 2 + 1) (omega arith)))
      | inr free ↦ ground (arith, drawn full (draw (full / 2 + 1)) (h (full / 2 + 1) (omega arith)))
    ]

normalize-kept :
    (c n : Command)
    → normalize_command c ≡ ok n
    → is_empty c.correlation_id ≡ false
    → (n.provider_id ≡ c.provider_id)
      × (n.correlation_id ≡ c.correlation_id)
      × (n.causation_id ≡ c.causation_id)
unfolding normalize_command
normalize-kept c n h e = ground arith

-- A decoded message has a provider that is trusted, and the command's correlation and causation
-- are the message's identity, which is not empty, whatever the JSON decoder and the hash yield.
pub decode-trusted :
    (json : Text → Option RequestEnvelope) (inbox_hash : RequestEnvelope → Command → Result Text)
    (body : Text) (providers : List Text) (c : Command) (m : InboxMessage)
    → decode json inbox_hash body providers ≡ ok (c, m)
    → (any (eq_text c.provider_id) providers ≡ true)
      × (c.correlation_id ≡ m.message_id)
      × (c.causation_id ≡ m.message_id)
      × (is_empty m.message_id ≡ false)
unfolding decode envelope_is_bad
decode-trusted json inbox_hash body providers c m h = elim (Option-cases (json body)) [
  | inl malformed ↦ ground arith
  | inr (e, read) ↦ elim (Result-cases (parse_money e.request.amount e.request.currency)) [
    | inl (money, parsed) ↦ elim (Result-cases (normalize_command (command_of e money))) [
      | inl (n, normal) ↦ elim (Result-cases (inbox_hash e n)) [
        | inl (hash, hashed) ↦ ground (arith, normalize-kept (command_of e money) n normal)
        | inr (f, refused) ↦ ground arith
      ]
      | inr (f, refused) ↦ ground arith
    ]
    | inr (f, refused) ↦ ground arith
  ]
]
