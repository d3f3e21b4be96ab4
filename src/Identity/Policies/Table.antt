-- ===== src/Identity/Policies/Table.antt =====
-- identity/application/policies/policy_set.hpp and policy_set.cpp: the table of the policies, built
-- once, and the decision. A decision comes with the actions that were reported to
-- `ConfigurationFaults` while it was made.
use pdr.Base.{
  Bool, false, not, List, [], ◌∷◌, Option, none, some, has_value, if◌then◌else◌, set, get_elem?,
  replicate,
}
use pdr.Core.Ids.{same_id}
use pdr.Identity.Actions.{
  Action, index, same_action, Resource, PolicyDecision, deny, foreign_tenant, no_policy,
}
use pdr.Identity.Policies.{Subject, Policy}
use pdr.Identity.Policies.Rules.{
  scheduling, scheduling_actions, billing, billing_actions, content, content_actions, progress,
  progress_actions, media, media_actions, journal, journal_actions, consents, consent_actions,
  reviews, review_actions, practice, practice_actions,
}

-- `std::array<const Policy*, ...>`: none is the null pointer.
abbrev pub Table : Type 0
Table = List (Option Policy)

unfoldable pub cover : Table → Policy → List Action → Table
cover table policy [] = table
cover table policy (action ∷ actions) =
    cover (set table (index action) (some policy)) policy actions

-- The constructor of `PolicySet`.
unfoldable pub policy_set : Table
unfolding cover
policy_set =
    let t = cover (replicate 24 none) scheduling scheduling_actions in
    let t = cover t billing billing_actions in
    let t = cover t content content_actions in
    let t = cover t progress progress_actions in
    let t = cover t media media_actions in
    let t = cover t journal journal_actions in
    let t = cover t consents consent_actions in
    let t = cover t reviews review_actions in cover t practice practice_actions

-- `table_[static_cast<std::size_t>(action)]`.
abbrev pub entry : Table → Action → Option Policy
entry table action = elim (get_elem? table (index action)) [ none ↦ none | some policy ↦ policy ]

unfoldable pub covers : Table → Action → Bool
covers table action =
    if same_action action Action.boundary then false else has_value (entry table action)

unfoldable pub ask : Option Policy → Subject → Action → Resource → PolicyDecision × List Action
ask none subject action resource = (deny no_policy, action ∷ [])
ask (some policy) subject action resource = (policy subject action resource, [])

-- `PolicySet::Decide`.
unfoldable pub decide : Table → Subject → Action → Resource → PolicyDecision × List Action
unfolding covers ask
decide table subject action resource =
    if not (same_id subject.tenant resource.tenant)
    then (deny foreign_tenant, [])
    else if not (covers table action)
    then (deny no_policy, action ∷ [])
    else ask (entry table action) subject action resource
