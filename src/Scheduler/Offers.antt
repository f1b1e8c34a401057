-- ===== src/Scheduler/Offers.antt =====
-- Which offers are declined.
use text.Mathlib.TextLemmas.{append-eq-nil_iff}
use mathlib.Core.List.{cons-ne-nil}
use stack_deploy.Prelude.{
  String, ◌≡◌, ◌≢◌, ◌↔◌, refl, inl, inr, none, some, List, [], ◌∷◌, All, String-cases, ap, ◌∙◌,
}
use stack_deploy.Prelude.Text.{join}
use stack_deploy.Map.{Map}
use stack_deploy.Application.{Failure}
use stack_deploy.Scheduler.{MesosTaskRunner, with_reason, decline_reasons, accept_offer}

-- What one runner says: an error counts for nothing.
abbrev pub NoReason : String → Failure → Type 0
NoReason reason none = reason ≡ ""
NoReason reason (some e) = Unit

abbrev AreTexts : List String → Type 0
AreTexts xs = All (λ x. x ≢ "") xs

join-IsEmpty : (xs : List String) → AreTexts xs → join xs ", " ≡ "" → xs ≡ []
unfolding join
join-IsEmpty [] h e = refl
join-IsEmpty (x ∷ []) h e = absurd (h.0 e)
join-IsEmpty (x ∷ y ∷ ys) h e = absurd (h.0 (append-eq-nil_iff.0 e).0)

nothing_joined : join [] ", " ≡ ""
unfolding join
nothing_joined = refl

module _ {S : Type 0} where
  with_reason-AreTexts :
      (reason : String) (f : Failure) (p : S × List String)
      → AreTexts p.1
      → AreTexts (with_reason reason f p).1
  with_reason-AreTexts reason (some e) (after, reasons) h = h
  with_reason-AreTexts reason none (after, reasons) h = elim (String-cases reason "") [
    | inl (same, hit) ↦ rw hit h
    | inr (other, miss) ↦ rw miss (other, h)
  ]

  with_reason-NoReason :
      (reason : String) (f : Failure) (p : S × List String)
      → ((with_reason reason f p).1 ≡ []) ↔ (NoReason reason f × (p.1 ≡ []))
  with_reason-NoReason reason (some e) (after, reasons) = (λ h. (tt, h), λ h. h.1)
  with_reason-NoReason reason none (after, reasons) = elim (String-cases reason "") [
    | inl (same, hit) ↦ rw hit (λ h. (same, h), λ h. h.1)
    | inr (other, miss) ↦
        rw miss (λ h. absurd (cons-ne-nil reason reasons h), λ h. absurd (other h.0))
  ]

module _ {S Offer Status : Type 0} where
  -- No runner has a reason against the offer, each asked in the state that the one before left.
  abbrev pub NoReasons : Map (MesosTaskRunner S Offer Status) → Offer → S → Type 0
  NoReasons [] offer world = Unit
  NoReasons ((name, runner) ∷ rest) offer world =
      NoReason (runner.resource_offer offer world).1 (runner.resource_offer offer world).2
      × NoReasons rest offer (runner.resource_offer offer world).0

  decline_reasons-AreTexts :
      (runners : Map (MesosTaskRunner S Offer Status)) (offer : Offer) (world : S)
      → AreTexts (decline_reasons runners offer world).1
  unfolding decline_reasons
  decline_reasons-AreTexts [] offer world = tt
  decline_reasons-AreTexts ((name, runner) ∷ rest) offer world =
      let answer = runner.resource_offer offer world in
      with_reason-AreTexts answer.1 answer.2 (decline_reasons rest offer answer.0)
        (decline_reasons-AreTexts rest offer answer.0)

  decline_reasons-NoReasons :
      (runners : Map (MesosTaskRunner S Offer Status)) (offer : Offer) (world : S)
      → ((decline_reasons runners offer world).1 ≡ []) ↔ NoReasons runners offer world
  unfolding decline_reasons
  decline_reasons-NoReasons [] offer world = (λ h. tt, λ h. refl)
  decline_reasons-NoReasons ((name, runner) ∷ rest) offer world =
      let answer = runner.resource_offer offer world in
      let here = with_reason-NoReason answer.1 answer.2 (decline_reasons rest offer answer.0) in
      let later = decline_reasons-NoReasons rest offer answer.0 in
      (λ h. ((here.0 h).0, later.0 (here.0 h).1), λ h. here.1 (h.0, later.1 h.1))

  -- The scheduler has no reason to decline an offer exactly if no Mesos task runner that answers
  -- it without an error gives one, each asked in the state that the one before it left.
  pub accept_offer-NoReasons :
      (runners : Map (MesosTaskRunner S Offer Status)) (offer : Offer) (world : S)
      → ((accept_offer runners offer world).1 ≡ "") ↔ NoReasons runners offer world
  unfolding accept_offer
  accept_offer-NoReasons runners offer world =
      let all = decline_reasons-NoReasons runners offer world in
      (
        λ h. all.0 (join-IsEmpty _ (decline_reasons-AreTexts runners offer world) h),
        λ h. ap (λ xs. join xs ", ") (all.1 h) ∙ nothing_joined,
      )
