-- ===== src/Workers/Consume/Whole.antt =====
-- What any message can do to the store, and when it is deleted.
use jungle_wager_engine.Base.{
  ℕ, ◌*◌, ◌≤◌, ◌<◌, Bool-cases, List, ◌≡◌, ◌⊎◌, refl, arith, Option, Option-cases, some, Text, inl,
  inr, IsInt64,
}
use jungle_wager_engine.Domain.Errors.{Result, Result-cases, ok, Error, storage, error_code}
use jungle_wager_engine.Domain.Money.Parse.{parse_money}
use jungle_wager_engine.Domain.Money.Parse.Fits.{parse_money-IsInt64}
use jungle_wager_engine.Application.{Command, InboxMessage, AppResult, normalize_command}
use jungle_wager_engine.Store.Monad.{Env, World}
use jungle_wager_engine.Store.Process.{process_wager}
use jungle_wager_engine.Store.Apply.{second}
use jungle_wager_engine.Store.Process.Upheld.{normalize-money}
use jungle_wager_engine.Store.Runs.{
  IsWhole, OthersWhole, processes, Reaches, stays, moves, Reaches-IsWhole,
}
use jungle_wager_engine.Workers.{RequestEnvelope, command_of, decode, retry_reason}
use jungle_wager_engine.Workers.Bounds.{backoff_bounds}
use jungle_wager_engine.Workers.Consume.{
  Message, Consumer, Ending, acknowledged, retained, delay_of, retain, acknowledge, run_command,
  handle,
}

-- A decoded amount is an int64.
decode-IsInt64 :
    (json : Text → Option RequestEnvelope) (inbox_hash : RequestEnvelope → Command → Result Text)
    (body : Text) (providers : List Text) (c : Command) (m : InboxMessage)
    → decode json inbox_hash body providers ≡ ok (c, m)
    → IsInt64 c.money.minor
unfolding decode
decode-IsInt64 json inbox_hash body providers c m h = elim (Option-cases (json body)) [
  | inl malformed ↦ ground arith
  | inr (e, read) ↦ elim (Result-cases (parse_money e.request.amount e.request.currency)) [
    | inl (money, parsed) ↦ elim (Result-cases (normalize_command (command_of e money))) [
      | inl (n, normal) ↦ elim (Result-cases (inbox_hash e n)) [
        | inl (hash, hashed) ↦
            let fits = parse_money-IsInt64 e.request.amount e.request.currency money parsed in
            ground (arith, normalize-money (command_of e money) n normal)
        | inr (f, refused) ↦ ground arith
      ]
      | inr (f, refused) ↦ ground arith
    ]
    | inr (f, refused) ↦ ground arith
  ]
]

-- The message is not deleted: the broker is asked to hide it for at most 30 seconds, and what it
-- answers to that is the ending's.
abbrev pub IsRetained : Consumer → Message → Ending → Type 0
IsRetained consumer message ending =
    (code : Text) × (reason : Text) × (delay : ℕ) × (ending
      ≡ retained code reason delay (consumer.hides message.receipt delay))
    × (delay ≤ 30 * second)

module _ (consumer : Consumer) (env : Env) (message : Message) (s : World) where
  -- One step of the store at most.
  pub handle-Reaches :
      {t : World} → Reaches env t s → Reaches env t (handle consumer env message s).1
  unfolding handle run_command
  handle-Reaches {t} before =
      elim (Result-cases
        (decode consumer.json consumer.inbox_hash message.body consumer.providers)) [
          | inl ((c, inbox), decoded) ↦
              let fits =
                decode-IsInt64 consumer.json consumer.inbox_hash message.body consumer.providers c
                  inbox decoded in
              let same : (handle consumer env message s).1
                  ≡ (process_wager env c (some inbox) s).1 =
                elim (Result-cases (process_wager env c (some inbox) s).0) [
                  | inl (result, good) ↦ ground arith
                  | inr (e, bad) ↦ ground arith
                ] in
              rw same (moves before (processes c (some inbox) fits))
          | inr (e, refused) ↦
              let same : (handle consumer env message s).1 ≡ s = ground arith in rw same before
        ]

  -- Whatever bytes a message holds, and whatever the JSON decoder makes of them, the store satisfies
  -- after `handle` what it satisfied before: sound books, unique keys, and int64 amounts. The others
  -- are taken to leave it so.
  pub handle-IsWhole : OthersWhole env → IsWhole s.db → IsWhole (handle consumer env message s).1.db
  handle-IsWhole others g = Reaches-IsWhole env others (handle-Reaches stays) g

  retain-IsRetained :
      ((n : ℕ) → 0 < n → consumer.draw n < n)
      → (e : Error) → IsRetained consumer message (retain consumer message e)
  unfolding retain
  retain-IsRetained draws e = (
    error_code e,
    retry_reason (error_code e),
    delay_of consumer message,
    refl,
    ground (arith, backoff_bounds message.receive_count (30 * second) consumer.draw draws),
  )

  -- What `handle` does with a message: it deletes the message, after a command that was read from it
  -- has been committed or recognized; or it does not delete the message, and asks the broker to hide
  -- it for at most 30 seconds, which the broker may refuse. The draw is taken to be below its bound.
  pub handle-acknowledges :
      ((n : ℕ) → 0 < n → consumer.draw n < n)
      → ((handle consumer env message s).0 ≡ acknowledged
          × ((c : Command) × (inbox : InboxMessage) × (result : AppResult) × (decode consumer.json
                  consumer.inbox_hash message.body consumer.providers
                ≡ ok (c, inbox))
              × ((process_wager env c (some inbox) s).0 ≡ ok result)
              × ((handle consumer env message s).1 ≡ (process_wager env c (some inbox) s).1)))
        ⊎ IsRetained consumer message (handle consumer env message s).0
  unfolding handle run_command acknowledge
  handle-acknowledges draws =
      elim (Result-cases
        (decode consumer.json consumer.inbox_hash message.body consumer.providers)) [
          | inl ((c, inbox), decoded) ↦ elim (Result-cases (process_wager env c (some inbox) s).0) [
            | inl (result, good) ↦ elim (Bool-cases (consumer.deletes message.receipt)) [
              | inl deleted ↦ inl (ground arith, (c, inbox, result, decoded, good, ground arith))
              | inr kept ↦ inr (same_ending (ground arith) (retain-IsRetained draws storage))
            ]
            | inr (e, bad) ↦ inr (same_ending (ground arith) (retain-IsRetained draws e))
          ]
          | inr (e, refused) ↦ inr (same_ending (ground arith) (retain-IsRetained draws e))
        ]
    where
      same_ending :
          {a b : Ending} → a ≡ b → IsRetained consumer message b → IsRetained consumer message a
      same_ending same r = rw same r
