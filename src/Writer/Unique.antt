-- ===== src/Writer/Unique.antt =====
-- src/writer.rs: `validate_batch_unique_ids` decides whether the identifiers are distinct.
use eventfold_db.Common.{
  [], ◌≡◌, ◌≢◌, ◌↔◌, inl, inr, false, refl, List, ◌∷◌, All, arith, length, leb, Bool-cases,
}
use eventfold_db.Crates.{Uuid}
use eventfold_db.Error.{ok}
use eventfold_db.Types.{ProposedEvent}
use eventfold_db.Writer.{seen_before, check_unique, validate_batch_unique_ids}

-- No identifier stands twice.
abbrev pub Distinct : List ProposedEvent → Type 0
Distinct [] = Unit
Distinct (e ∷ es) = All (λ f. f.event_id ≢ e.event_id) es × Distinct es

-- No identifier of the events is in the set.
abbrev Unseen : List Uuid → List ProposedEvent → Type 0
Unseen seen es = All (λ f. seen_before f.event_id seen ≡ false) es

Unseen-cons :
    (id : Uuid) (seen : List Uuid) (es : List ProposedEvent)
    → Unseen (id ∷ seen) es
    → Unseen seen es × All (λ f. f.event_id ≢ id) es
unfolding seen_before
Unseen-cons id seen [] h = (tt, tt)
Unseen-cons id seen (e ∷ es) h =
    let (later, other) = Unseen-cons id seen es h.1 in
    ((ground (arith, h.0), later), (ground (arith, h.0), other))

cons-Unseen :
    (id : Uuid) (seen : List Uuid) (es : List ProposedEvent)
    → Unseen seen es
    → All (λ f. f.event_id ≢ id) es
    → Unseen (id ∷ seen) es
unfolding seen_before
cons-Unseen id seen [] h other = tt
cons-Unseen id seen (e ∷ es) h other =
    (ground (arith, h.0, other.0), cons-Unseen id seen es h.1 other.1)

check_unique_sound :
    (seen : List Uuid) (es : List ProposedEvent)
    → check_unique seen es ≡ ok tt
    → Unseen seen es × Distinct es
unfolding check_unique
check_unique_sound seen [] h = (tt, tt)
check_unique_sound seen (e ∷ es) h = elim (Bool-cases (seen_before e.event_id seen)) [
  | inl t ↦ cc (rw t at h)
  | inr f ↦
      let (unseen, distinct) = check_unique_sound (e.event_id ∷ seen) es (rw f at h) in
      let (later, other) = Unseen-cons e.event_id seen es unseen in ((f, later), (other, distinct))
]

check_unique_complete :
    (seen : List Uuid) (es : List ProposedEvent)
    → Unseen seen es
    → Distinct es
    → check_unique seen es ≡ ok tt
unfolding check_unique
check_unique_complete seen [] h d = refl
check_unique_complete seen (e ∷ es) h d =
    rw h.0
      (check_unique_complete (e.event_id ∷ seen) es (cons-Unseen e.event_id seen es h.1 d.0) d.1)

Unseen-nil : (es : List ProposedEvent) → Unseen [] es
unfolding seen_before
Unseen-nil [] = tt
Unseen-nil (e ∷ es) = (refl, Unseen-nil es)

-- A batch passes the check exactly if no two of its events share an identifier.
pub validate_batch_unique_ids-Distinct :
    (es : List ProposedEvent) → (validate_batch_unique_ids es ≡ ok tt) ↔ Distinct es
unfolding validate_batch_unique_ids
validate_batch_unique_ids-Distinct [] = (λ h. tt, λ d. refl)
validate_batch_unique_ids-Distinct (e ∷ []) = (λ h. (tt, tt), λ d. refl)
validate_batch_unique_ids-Distinct (e ∷ f ∷ es) =
    let several : leb (length (e ∷ f ∷ es)) 1 ≡ false = ground arith in
    rw several (
      λ h. (check_unique_sound [] (e ∷ f ∷ es) h).1,
      λ d. check_unique_complete [] (e ∷ f ∷ es) (Unseen-nil (e ∷ f ∷ es)) d,
    )
