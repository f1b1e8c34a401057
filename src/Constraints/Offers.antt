-- ===== src/Constraints/Offers.antt =====
-- OfferAttributes: the attributes of a Mesos offer as a map of texts.
use stack_deploy.Prelude.{String, List, [], ◌∷◌, ◌==◌, if◌then◌else◌}
use stack_deploy.Map.{Map, insert}

-- What the program reads of a Mesos offer: `GetText().GetValue()` is "" for an attribute that is not
-- a text.
pub record Attribute : Type 0 where
  pub name : String
  pub text : String

unfoldable pub add_attributes : List Attribute → Map String → Map String
unfolding insert
add_attributes [] attributes = attributes
add_attributes (a ∷ rest) attributes =
    add_attributes rest (if a.text == "" then attributes else insert a.name a.text attributes)

unfoldable pub offer_attributes : String → List Attribute → Map String
unfolding add_attributes
offer_attributes hostname attributes = add_attributes attributes (("hostname", hostname) ∷ [])
