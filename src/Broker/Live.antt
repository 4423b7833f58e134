-- ===== src/Broker/Live.antt =====
-- src/broker.rs: the live phase of both subscriptions.
use eventfold_db.Common.{
  [], ℕ, zero, suc, ◌+◌, ◌-◌, ◌*◌, ◌≤◌, ◌<◌, ◌≡◌, ◌∙◌, refl, ap, List, ◌∷◌, ◌++◌, map, Option, none,
  some, arith, All, length, take, drop, Bool-cases, inl, inr, if◌then◌else◌, ◌==◌, take-append-drop,
  drop-drop,
}
use mathlib.Core.List.{get_last?}
use mathlib.Core.Option
use native.Mathlib.Decide.{dec_lt}
use eventfold_db.Crates.{Uuid}
use eventfold_db.Types.{RecordedEvent}
use eventfold_db.EventLog.WellFormed.{Counted, of_stream}
use eventfold_db.Broker.Batches.{Reaches, PrefixOf, Counted-drop, taken-Counted, last_key}
use eventfold_db.Broker.CatchUp.{catch_up, catch_up_lem}
use eventfold_db.Broker.{
  catchup_batch_size, is_duplicate, to_message, publish, live_all, live_stream,
}

-- What the live phase forwards: the events whose number is behind the last of the catch-up.
pub forwarded : (RecordedEvent → ℕ) → Option ℕ → List RecordedEvent → List RecordedEvent
forwarded key last [] = []
forwarded key last (e ∷ es) =
    if is_duplicate (key e) last then forwarded key last es else e ∷ forwarded key last es

pub live_all-publish :
    (last : Option ℕ) (es : List RecordedEvent)
    → live_all last (publish es) ≡ map to_message (forwarded (λ e. e.global_position) last es)
unfolding live_all publish forwarded
live_all-publish last [] = refl
live_all-publish last (e ∷ es) = elim (Bool-cases (is_duplicate e.global_position last)) [
  | inl t ↦ rw t (live_all-publish last es)
  | inr f ↦ rw f (ap (◌∷◌ (to_message e)) (live_all-publish last es))
]

pub live_stream-publish :
    (id : Uuid) (last : Option ℕ) (es : List RecordedEvent)
    → live_stream id last (publish es)
      ≡ map to_message (forwarded (λ e. e.stream_version) last (of_stream id es))
unfolding live_stream publish forwarded of_stream
live_stream-publish id last [] = refl
live_stream-publish id last (e ∷ es) = elim (Bool-cases (e.stream_id == id)) [
  | inr other ↦ rw other (live_stream-publish id last es)
  | inl same ↦ elim (Bool-cases (is_duplicate e.stream_version last)) [
    | inl t ↦ rw (same, t) (live_stream-publish id last es)
    | inr f ↦ rw (same, f) (ap (◌∷◌ (to_message e)) (live_stream-publish id last es))
  ]
]

drop-nil {ℓ} : {A : Type ℓ} → (n : ℕ) → drop {A = A} n [] ≡ []
unfolding drop
drop-nil zero = refl
drop-nil (suc n) = refl

module _ (key : RecordedEvent → ℕ) where
  -- Of events that are counted up from `n`, those up to `last` are dropped.
  forwarded-Counted :
      (last n : ℕ) (es : List RecordedEvent)
      → Counted key n es
      → forwarded key (some last) es ≡ drop (suc last - n) es
  unfolding forwarded drop
  forwarded-Counted last n [] h = rw (drop-nil {A = RecordedEvent} (suc last - n)) refl
  forwarded-Counted last n (e ∷ es) h = elim (dec_lt last n) [
    | yes later ↦
        let none_left : suc last - n ≡ 0 = omega arith in
        let none_next : suc last - (n + 1) ≡ 0 = omega arith in
        let rest = rw none_next at (forwarded-Counted last (n + 1) es h.1) in
        rw none_left (ground (arith, h.0, rest))
    | no seen ↦
        let more : suc last - n ≡ suc (suc last - (n + 1)) = omega arith in
        rw (more, ← forwarded-Counted last (n + 1) es h.1) (ground (arith, h.0))
  ]

  -- What is forwarded after a catch-up that yielded something.
  forwarded-Reaches :
      (all : List RecordedEvent) (registered from : ℕ) (es : List RecordedEvent)
      → Counted key 0 all
      → from < registered
      → Reaches all registered from es
      → forwarded key (Option.map key (get_last? es)) (drop registered all)
        ≡ drop (from + length es) all
  forwarded-Reaches all registered from [] counted inside (exact, reached) = absurd (omega arith)
  forwarded-Reaches all registered from (e ∷ es) counted inside (exact, reached) =
      let start : 0 + registered ≡ registered = omega arith in
      let at_from = taken-Counted key all (e ∷ es) from (length (e ∷ es)) counted exact in
      let rest : registered + (suc (from + length es) - registered) ≡ from + length (e ∷ es) =
        omega arith in
      rw
        (
          last_key key from e es at_from,
          forwarded-Counted (from + length es) registered (drop registered all)
              (rw start at (Counted-drop key 0 registered all counted)),
          drop-drop registered (suc (from + length es) - registered) all,
          rest,
        )
        refl

  -- The two phases together give every event from `from` on, once and in order.
  pub once :
      (all : List RecordedEvent) (xss : List (List RecordedEvent)) (from registered : ℕ)
      → Counted key 0 all
      → from < registered
      → All (PrefixOf all) xss
      → All (λ xs. registered ≤ length xs) xss
      → length all - from < catchup_batch_size * length xss
      → (caught live : List RecordedEvent) × (caught ++ live ≡ drop from all)
        × (catch_up key from xss ≡ some (caught, none))
        × (forwarded key (Option.map key (get_last? caught)) (drop registered all) ≡ live)
  once all xss from registered counted inside prefixes know enough =
      let (es, caught, reaches) =
        catch_up_lem key all registered xss from counted prefixes know enough in
      (
        es,
        drop (from + length es) all,
        everything es reaches.0,
        caught,
        forwarded-Reaches all registered from es counted inside reaches,
      )
    where
      everything :
          (es : List RecordedEvent)
          → es ≡ take (length es) (drop from all)
          → es ++ drop (from + length es) all ≡ drop from all
      everything es exact =
          ap (λ xs. xs ++ drop (from + length es) all) exact
          ∙ rw (← drop-drop from (length es) all) (take-append-drop (length es) (drop from all))
