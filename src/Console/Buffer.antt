-- ===== src/Console/Buffer.antt =====
-- eventfold-console/src/main.rs, src/app.rs: the buffer of the live tail and a drained channel.
use eventfold_db.Common.{
  [], ℕ, ◌+◌, ◌-◌, ◌≤◌, ◌<◌, ◌≡◌, ◌∙◌, refl, sym, ap, Bool, true, false, ◌||◌, Bool-cases, inl, inr,
  List, ◌∷◌, ◌++◌, arith, leb, length, drop, length-append, length-drop, drop-drop, drop-append_le,
  append_assoc, append-nil,
}
use eventfold_db.Console.App.{
  AppState, EventRecord, new, live_tail_capacity, pushed, push_live_event,
}
use eventfold_db.Console.Client.{SubscriptionMsg}
use eventfold_db.Console.Loop.{drain}

-- The last elements, that many at most.
abbrev pub suffix {ℓ} : {A : Type ℓ} → ℕ → List A → List A
suffix n xs = drop (length xs - n) xs

drop_zero :
    (seen : List EventRecord) (e : EventRecord) → drop 0 seen ++ e ∷ [] ≡ drop 0 (seen ++ e ∷ [])
unfolding drop
drop_zero seen e = refl

pushed-suffix :
    (seen : List EventRecord) (e : EventRecord)
    → pushed (suffix live_tail_capacity seen) e ≡ suffix live_tail_capacity (seen ++ e ∷ [])
unfolding pushed
pushed-suffix seen e =
    let grown = length-append seen (e ∷ []) in
    let kept = length-drop (length seen - live_tail_capacity) seen in
    elim (Bool-cases (leb live_tail_capacity (length (suffix live_tail_capacity seen)))) [
      | inl full ↦
          let much : live_tail_capacity ≤ length (suffix live_tail_capacity seen) = ground arith in
          let k = length seen - live_tail_capacity + 1 in
          let same : k ≡ length (seen ++ e ∷ []) - live_tail_capacity =
            omega (arith, grown, kept, much) in
          rw full (
            ap (λ xs. xs ++ e ∷ []) (drop-drop (length seen - live_tail_capacity) 1 seen)
            ∙ sym (drop-append_le k seen (e ∷ []) (omega (arith, kept, much)))
            ∙ ap (λ n. drop n (seen ++ e ∷ [])) same)
      | inr room ↦
          let few : length (suffix live_tail_capacity seen) < live_tail_capacity = ground arith in
          let all : length seen - live_tail_capacity ≡ 0 = omega (arith, kept, few) in
          let same : length (seen ++ e ∷ []) - live_tail_capacity ≡ 0 =
            omega (arith, grown, kept, few) in
          rw (room, all, same) (drop_zero seen e)
    ]

-- The events among the messages.
abbrev pub received_events : List SubscriptionMsg → List EventRecord
received_events [] = []
received_events (SubscriptionMsg.event e ∷ msgs) = e ∷ received_events msgs
received_events (SubscriptionMsg.caught_up ∷ msgs) = received_events msgs
received_events (SubscriptionMsg.error s ∷ msgs) = received_events msgs

abbrev pub has_caught_up : List SubscriptionMsg → Bool
has_caught_up [] = false
has_caught_up (SubscriptionMsg.event e ∷ msgs) = has_caught_up msgs
has_caught_up (SubscriptionMsg.caught_up ∷ msgs) = true
has_caught_up (SubscriptionMsg.error s ∷ msgs) = has_caught_up msgs

-- A drained state holds the last events of those seen, in their order.
pub drain-suffix :
    (s : AppState) (seen : List EventRecord) (msgs : List SubscriptionMsg)
    → s.live_events ≡ suffix live_tail_capacity seen
    → (drain s msgs).live_events ≡ suffix live_tail_capacity (seen ++ received_events msgs)
unfolding drain push_live_event
drain-suffix s seen [] h = h ∙ ap (suffix live_tail_capacity) (sym (append-nil seen))
drain-suffix s seen (SubscriptionMsg.event e ∷ msgs) h =
    drain-suffix (push_live_event s e) (seen ++ e ∷ []) msgs
      (ap (λ es. pushed es e) h ∙ pushed-suffix seen e)
    ∙ ap (suffix live_tail_capacity) (append_assoc seen (e ∷ []) (received_events msgs))
drain-suffix s seen (SubscriptionMsg.caught_up ∷ msgs) h =
    drain-suffix (record s { live_caught_up = true }) seen msgs h
drain-suffix s seen (SubscriptionMsg.error e ∷ msgs) h = drain-suffix s seen msgs h

pub new-suffix : (addr : List ℕ) → (new addr).live_events ≡ suffix live_tail_capacity []
unfolding new drop
new-suffix addr = refl

pub new-caught_up :
    (addr : List ℕ) (caught_up : Bool)
    → caught_up ≡ true
    → ((new addr).live_caught_up || caught_up) ≡ true
unfolding new
new-caught_up addr caught_up h = h

or_false : (b : Bool) → b ≡ (b || false)
or_false true = refl
or_false false = refl

or_true : (b c : Bool) → (true || c) ≡ (b || true)
or_true true c = refl
or_true false c = refl

pub drain-caught_up :
    (s : AppState) (msgs : List SubscriptionMsg)
    → (drain s msgs).live_caught_up ≡ (s.live_caught_up || has_caught_up msgs)
unfolding drain push_live_event
drain-caught_up s [] = or_false s.live_caught_up
drain-caught_up s (SubscriptionMsg.event e ∷ msgs) = drain-caught_up (push_live_event s e) msgs
drain-caught_up s (SubscriptionMsg.caught_up ∷ msgs) =
    drain-caught_up (record s { live_caught_up = true }) msgs
    ∙ or_true s.live_caught_up (has_caught_up msgs)
drain-caught_up s (SubscriptionMsg.error e ∷ msgs) = drain-caught_up s msgs
