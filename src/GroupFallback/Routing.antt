-- ===== src/GroupFallback/Routing.antt =====
-- The group that `resolveClientGroup` lets route a call.
use mathlib.Core.Path.{subst}
use lite_api.Common.{
  String, ℕ, zero, suc, ◌≡◌, refl, ◌⊎◌, inl, inr, nat_eq, string_eq, Bool, true, false, List, [],
  ◌∷◌, Option, none, some, contains, arith, eq_iff, Bool-cases,
}
use lite_api.Common.Errors.{ok, Result-cases}
use lite_api.Models.{supported_platform}
use lite_api.GroupFallback.{
  GroupRow, OwnRow, LoadGroup, routable_platform, is_target, check_chain, validate_fallback,
  ClientPolicy, other_protocol, is_serving, found_group, follow_groups, resolve_client_group,
}
use lite_api.GroupFallback.Chains.{check_chain-Turns}

-- A stored group that may route the calls of other clients.
abbrev pub Serves : LoadGroup → GroupRow → Type 0
Serves load g =
    (g.code_only ≡ false)
    × (g.status ≡ "active")
    × (g.subscription ≡ "standard")
    × (g.oauth_only ≡ false)
    × ((supported_platform g.platform ≡ true) ⊎ (g.platform ≡ "composite"))
    × ((id : ℕ) × (load id ≡ ok (some g)))

routable-cases :
    (platform : String)
    → routable_platform platform ≡ true
    → (supported_platform platform ≡ true) ⊎ (platform ≡ "composite")
unfolding routable_platform
routable-cases platform h = ground (arith, string_eq.beq_iff platform "composite")

is_serving-true :
    (g : GroupRow)
    → is_serving g ≡ true
    → (g.status ≡ "active") × (g.subscription ≡ "standard") × (g.oauth_only ≡ false)
unfolding is_serving
is_serving-true g h = (
  (string_eq.beq_iff g.status "active").0 (ground arith),
  (string_eq.beq_iff g.subscription "standard").0 (ground arith),
  ground arith,
)

found_group-eq-ok :
    (row : Option GroupRow) (g : GroupRow)
    → found_group row ≡ ok g
    → (row ≡ some g) × (is_serving g ≡ true) × (routable_platform g.platform ≡ true)
unfolding found_group
found_group-eq-ok none g h = cc
found_group-eq-ok (some r) g h = ground arith

follow_groups-Turns :
    (load : LoadGroup) (seen : List ℕ) (id left : ℕ) (group g : GroupRow)
    → follow_groups load seen true (some id) group (suc left) ≡ ok g
    → (r : GroupRow) × (load id ≡ ok (some r))
      × (is_serving r ≡ true)
      × (routable_platform r.platform ≡ true)
      × (follow_groups load (id ∷ seen) r.code_only r.fallback r left ≡ ok g)
unfolding follow_groups
follow_groups-Turns load seen id left group g h = elim (Bool-cases (contains seen id)) [
  | inl c ↦ ground arith
  | inr c ↦ elim (Result-cases (load id)) [
    | inr (e, failed) ↦ ground arith
    | inl (row, found) ↦ elim (Result-cases (found_group row)) [
      | inr (e, refused) ↦ ground arith
      | inl (r, good) ↦ ground (arith, found_group-eq-ok row r good)
    ]
  ]
]

follow_groups-Serves :
    (load : LoadGroup) (seen : List ℕ) (code : Bool) (next : Option ℕ) (group : GroupRow) (left : ℕ)
    (g : GroupRow)
    → follow_groups load seen code next group left ≡ ok g
    → (code ≡ true) ⊎ Serves load group
    → Serves load g
unfolding follow_groups
follow_groups-Serves load seen false next group left g h s = elim s [
  | inl c ↦ absurd (ground arith)
  | inr serves ↦ subst (Serves load) (ground arith) serves
]
follow_groups-Serves load seen true none group left g h s = cc
follow_groups-Serves load seen true (some id) group zero g h s = cc
follow_groups-Serves load seen true (some id) group (suc left) g h s =
    let (r, found, serving, platform, rest) =
      follow_groups-Turns load seen id left group g (unfold follow_groups in h) in
    follow_groups-Serves load (id ∷ seen) r.code_only r.fallback r left g rest
      (elim (Bool-cases r.code_only) [
        | inl code ↦ inl code
        | inr free ↦
            let (active, standard, keyed) = is_serving-true r serving in
            inr (free, active, standard, keyed, routable-cases r.platform platform, (id, found))
      ])

resolve_client_group-eq-ok :
    (load : LoadGroup) (policy : ClientPolicy) (own g : GroupRow)
    → resolve_client_group load (some policy) own ≡ ok (some g)
    → (own.code_only ≡ true)
      × (follow_groups load (own.group_id ∷ []) own.code_only own.fallback own 32 ≡ ok g)
unfolding resolve_client_group
resolve_client_group-eq-ok load policy own g h =
    elim (Result-cases (follow_groups load (own.group_id ∷ []) own.code_only own.fallback own 32)) [
      | inl (r, e) ↦ ground arith
      | inr (r, e) ↦ ground arith
    ]

-- A group that `resolveClientGroup` chooses to route a call is stored, active, not for Claude Code only,
-- not for OAuth only, of the standard subscription, and composite or of a supported platform.
pub resolve_client_group-Serves :
    (load : LoadGroup) (policy : Option ClientPolicy) (own g : GroupRow)
    → resolve_client_group load policy own ≡ ok (some g)
    → Serves load g
unfolding resolve_client_group
resolve_client_group-Serves load none own g h = cc
resolve_client_group-Serves load (some policy) own g h =
    let (code, e) = resolve_client_group-eq-ok load policy own g h in
    follow_groups-Serves load (own.group_id ∷ []) own.code_only own.fallback own 32 g e (inl code)

target-found_group :
    (r : GroupRow)
    → is_target r ≡ true
    → r.status ≡ "active"
    → (found_group (some r) ≡ ok r) × (r.code_only ≡ false)
unfolding found_group is_target is_serving
target-found_group r fits active = ground (arith, eq_iff r.status "active")

-- A proper target ends the chain at once.
follow_target :
    (load : LoadGroup) (seen : List ℕ) (id left : ℕ) (group r : GroupRow)
    → contains seen id ≡ false
    → load id ≡ ok (some r)
    → is_target r ≡ true
    → r.status ≡ "active"
    → follow_groups load seen true (some id) group (suc left) ≡ ok r
unfolding follow_groups
follow_target load seen id left group r new found fits active =
    let (good, last) = target-found_group r fits active in rw (new, found, good, last) refl

-- Once `validateGroupFallback` has accepted a group for Claude Code only with the fallback `id`, a call
-- of another client is routed by exactly that fallback, if its row is active. The conditions are that
-- the protocol is not one that such groups refuse, and that the call reads what was checked.
pub validate_fallback-resolve_client_group :
    (own : OwnRow) (load : LoadGroup) (policy : ClientPolicy) (group r : GroupRow) (id : ℕ)
    → validate_fallback (ok own) load group.group_id true ≡ ok tt
    → own.own_fallback ≡ some id
    → group.fallback ≡ some id
    → group.code_only ≡ true
    → load id ≡ ok (some r)
    → r.status ≡ "active"
    → other_protocol policy.protocol ≡ false
    → policy.code ≡ false
    → resolve_client_group load (some policy) group ≡ ok (some r)
unfolding validate_fallback resolve_client_group
validate_fallback-resolve_client_group own load policy group r id h e f c found active other code =
    let checked : check_chain load (group.group_id ∷ []) (some id) 32 ≡ ok tt = ground arith in
    let (r', new, found', fits, rest) =
      check_chain-Turns load (group.group_id ∷ []) id 31 checked in
    let routed =
      follow_target load (group.group_id ∷ []) id 31 group r new found (ground arith) active in
    ground arith
