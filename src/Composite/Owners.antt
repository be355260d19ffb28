-- ===== src/Composite/Owners.antt =====
-- The aliases that `loadComposite` collects: each model goes to the one platform that claims it.
use lite_api.Common.{
  ℕ, ◌≡◌, refl, sym, ◌∙◌, inl, inr, if◌then◌else◌, ◌==◌, text_eq, string_eq, text_beq_iff, Text,
  String, Bool-cases, true, not, ◌&&◌, List, [], ◌∷◌, ◌++◌, Option, none, some, All, all, arith,
  eq_iff,
}
use lite_api.Common.Strings.{trim_space}
use lite_api.Models.{supported_platform, concrete_model}
use lite_api.Composite.{Route, resolve, owner_of, set_owner, claim, claim_all, load_owners}
use lite_api.Composite.Decisions.{IsOwned, resolve_supported}

-- The claims on one model, in the order in which they are read: each supported account whose mapping
-- sends the model, a concrete name, to a target that is not blank.
claims_in : Text → String → List (Text × Text) → List String
claims_in model platform [] = []
claims_in model platform ((m, target) ∷ rest) =
    if m == model && concrete_model m && not (trim_space target == [])
    then platform ∷ claims_in model platform rest
    else claims_in model platform rest

pub claims : Text → List (String × List (Text × Text)) → List String
unfolding claims_in
claims model [] = []
claims model ((platform, mapping) ∷ rows) =
    (if supported_platform platform then claims_in model platform mapping else [])
    ++ claims model rows

-- One claimant owns the model; several leave it to nobody, under the empty name.
pub verdict : List String → Option String
verdict [] = none
verdict (p ∷ ps) = some (if all (λ q. q == p) ps then p else "")

-- One claim more on a model.
join : Option String → String → Option String
join none p = some p
join (some q) p = some (if q == p then p else "")

join_all : Option String → List String → Option String
join_all o [] = o
join_all o (p ∷ ps) = join_all (join o p) ps

owner_of-set_owner :
    (m model : Text) (p : String) (os : List (Text × String))
    → owner_of m (set_owner model p os)
      ≡ (if model == m then join (owner_of m os) p else owner_of m os)
unfolding owner_of set_owner join
owner_of-set_owner m model p [] = refl
owner_of-set_owner m model p ((k, q) ∷ os) = ground (
  arith,
  text_beq_iff k model,
  text_beq_iff k m,
  text_beq_iff model m,
  owner_of-set_owner m model p os,
)

join_all-append :
    (o : Option String) (ps qs : List String) → join_all o (ps ++ qs) ≡ join_all (join_all o ps) qs
unfolding join_all
join_all-append o [] qs = refl
join_all-append o (p ∷ ps) qs = join_all-append (join o p) ps qs

claim_step :
    (m : Text) (p : String) (k target : Text) (os : List (Text × String)) (later : List String)
    → join_all (owner_of m (claim p (k, target) os)) later
      ≡ join_all
          (owner_of m os)
          (if k == m && concrete_model k && not (trim_space target == []) then p ∷ later else later)
unfolding claim join_all
claim_step m p k target os later = ground (arith, owner_of-set_owner m k p os, text_beq_iff k m)

owner_of-claim_all :
    (m : Text) (p : String) (mapping : List (Text × Text)) (os : List (Text × String))
    → owner_of m (claim_all p mapping os) ≡ join_all (owner_of m os) (claims_in m p mapping)
unfolding claim_all claims_in join_all
owner_of-claim_all m p [] os = refl
owner_of-claim_all m p ((k, target) ∷ rest) os =
    owner_of-claim_all m p rest (claim p (k, target) os)
    ∙ claim_step m p k target os (claims_in m p rest)

owner_of-load_owners :
    (m : Text) (rows : List (String × List (Text × Text))) (os : List (Text × String))
    → owner_of m (load_owners rows os) ≡ join_all (owner_of m os) (claims m rows)
unfolding load_owners claims join_all
owner_of-load_owners m [] os = refl
owner_of-load_owners m ((p, mapping) ∷ rows) os = elim (Bool-cases (supported_platform p)) [
  | inl e ↦ rw e (
      owner_of-load_owners m rows (claim_all p mapping os)
      ∙ rw (owner_of-claim_all m p mapping os)
          (sym (join_all-append (owner_of m os) (claims_in m p mapping) (claims m rows))))
  | inr e ↦ rw e (owner_of-load_owners m rows os)
]

join_all-conflict : (ps : List String) → join_all (some "") ps ≡ some ""
unfolding join_all join
join_all-conflict [] = refl
join_all-conflict (p ∷ ps) = ground (arith, join_all-conflict ps, eq_iff "" p)

join_all-some :
    (q : String) (ps : List String)
    → join_all (some q) ps ≡ some (if all (λ p. p == q) ps then q else "")
unfolding join_all join
join_all-some q [] = refl
join_all-some q (p ∷ ps) =
    ground (arith, eq_iff q p, eq_iff p q, join_all-conflict ps, join_all-some q ps)

join_all-verdict : (ps : List String) → join_all none ps ≡ verdict ps
unfolding join_all verdict join
join_all-verdict [] = refl
join_all-verdict (p ∷ ps) = join_all-some p ps

-- The owner of a model after all rows are read is the verdict on the claims of it: nobody without a
-- claim, the claimant if all claims are of one platform, and the empty name otherwise.
pub load_owners-verdict :
    (rows : List (String × List (Text × Text))) (model : Text)
    → owner_of model (load_owners rows []) ≡ verdict (claims model rows)
unfolding owner_of
load_owners-verdict rows model =
    owner_of-load_owners model rows [] ∙ join_all-verdict (claims model rows)

set_owner-IsOwned :
    (model : Text) (p : String) (os : List (Text × String))
    → supported_platform p ≡ true
    → All IsOwned os
    → All IsOwned (set_owner model p os)
unfolding set_owner
set_owner-IsOwned model p [] s h = (inr s, tt)
set_owner-IsOwned model p ((k, q) ∷ os) s h =
    ground (arith, eq_iff q p, set_owner-IsOwned model p os s h.1)

claim_all-IsOwned :
    (p : String) (mapping : List (Text × Text)) (os : List (Text × String))
    → supported_platform p ≡ true
    → All IsOwned os
    → All IsOwned (claim_all p mapping os)
unfolding claim_all claim
claim_all-IsOwned p [] os s h = h
claim_all-IsOwned p ((k, target) ∷ rest) os s h =
    claim_all-IsOwned p rest _ s (ground (arith, set_owner-IsOwned k p os s h))

-- So the aliases of a loaded group meet the condition under which every match is supported.
pub load_owners-IsOwned :
    (rows : List (String × List (Text × Text))) (os : List (Text × String))
    → All IsOwned os
    → All IsOwned (load_owners rows os)
unfolding load_owners
load_owners-IsOwned [] os h = h
load_owners-IsOwned ((p, mapping) ∷ rows) os h =
    load_owners-IsOwned rows _ (ground (arith, claim_all-IsOwned p mapping os))

-- Every match names a supported platform, whatever the routes and whatever accounts are loaded.
pub resolve-load_owners_supported :
    (routes : List Route) (rows : List (String × List (Text × Text))) (gid : ℕ) (model : Text)
    (endpoint : String)
    → let decision =
        resolve (record { routes = routes; owners = load_owners rows [] }) gid model endpoint in
      decision.matched ≡ true → supported_platform decision.target_platform ≡ true
resolve-load_owners_supported routes rows gid model endpoint =
    resolve_supported (record { routes = routes; owners = load_owners rows [] }) gid model endpoint
      (load_owners-IsOwned rows [] tt)
