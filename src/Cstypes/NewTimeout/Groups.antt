-- ===== src/Cstypes/NewTimeout/Groups.antt =====
-- cstypes/timeout.go: the groups of a new timeout certificate hold the signatures of its timeouts.
use monadbft_go.Base.{
  ◌≡◌, inl, inr, sym, subst, arith, some, List, [], ◌∷◌, ◌++◌, All, All-append, Bool-cases,
}
use monadbft_go.Base.Outcome.{err, Outcome-cases}
use monadbft_go.Base.Table.{insert, nat_eq, lookup}
use monadbft_go.Types.{NodeId}
use monadbft_go.Cstypes.Certs.{Timeout, TimeoutInfo}
use monadbft_go.Cstypes.Codec.{encode_timeout_info}
use monadbft_go.Cstypes.NewTimeout.{
  collect_groups, group, group_of, InfoGroups, timeout_domain, info_eq,
}
use monadbft_go.Validator.Mapping.{ValidatorMapping}
use monadbft_go.Sigcol.{NodeSig, invalid_signatures_create, new_collection}
use monadbft_go.Sigcol.New.{new_collection-blames}
use monadbft_go.Sigcol.Pairing.{Bls}

-- What holds of the senders holds in every group.
abbrev AllIn : (NodeSig → Type 0) → InfoGroups → Type 0
AllIn P groups = All (λ g. All P g.1) groups

All-insert :
    (P : NodeSig → Type 0) (ti : TimeoutInfo) (sigs : List NodeSig) (groups : InfoGroups)
    → All P sigs
    → AllIn P groups
    → AllIn P (insert ti sigs groups)
unfolding insert
All-insert P ti sigs [] a b = (a, tt)
All-insert P ti sigs ((tj, s) ∷ groups) a b = elim (Bool-cases (info_eq.beq tj ti)) [
  | inl q ↦
      let e : insert ti sigs ((tj, s) ∷ groups) ≡ (ti, sigs) ∷ groups = ground (arith, q) in
      subst (AllIn P) (sym e) ((a, b.1))
  | inr q ↦
      let e : insert ti sigs ((tj, s) ∷ groups) ≡ (tj, s) ∷ insert ti sigs groups =
        ground (arith, q) in
      subst (AllIn P) (sym e) ((b.0, All-insert P ti sigs groups a b.1))
]

All-group_of :
    (P : NodeSig → Type 0) (ti : TimeoutInfo) (groups : InfoGroups)
    → AllIn P groups
    → All P (group_of (lookup ti groups))
unfolding lookup
All-group_of P ti [] b = tt
All-group_of P ti ((tj, s) ∷ groups) b = elim (Bool-cases (info_eq.beq tj ti)) [
  | inl q ↦
      let e : lookup ti ((tj, s) ∷ groups) ≡ some s = ground (arith, q) in
      subst (λ o. All P (group_of o)) (sym e) b.0
  | inr q ↦
      let e : lookup ti ((tj, s) ∷ groups) ≡ lookup ti groups = ground (arith, q) in
      subst (λ o. All P (group_of o)) (sym e) (All-group_of P ti groups b.1)
]

pub All-group :
    (P : NodeSig → Type 0) (tms : List (NodeId × Timeout)) (groups : InfoGroups)
    → All (λ x. P (x.0, x.1.timeout_signature)) tms
    → AllIn P groups
    → AllIn P (group tms groups)
unfolding group
All-group P [] groups a b = b
All-group P ((id, t) ∷ tms) groups a b = All-group P tms _ a.1 (
    All-insert P t.tm_info (group_of (lookup t.tm_info groups) ++ ((id, t.timeout_signature) ∷ []))
      groups
      (All-append P (group_of (lookup t.tm_info groups)) ((id, t.timeout_signature) ∷ [])
        (All-group_of P t.tm_info groups b) ((a.0, tt)))
      b)

-- A failure to collect blames one of those grouped.
pub collect_groups-blames :
    (bls : Bls) (mapping : ValidatorMapping) (P : NodeSig → Type 0) (groups : InfoGroups)
    (bad : List NodeSig)
    → collect_groups bls mapping groups ≡ err (invalid_signatures_create bad)
    → AllIn P groups
    → (b : NodeSig) × (rest : List NodeSig) × (bad ≡ b ∷ rest) × P b
unfolding collect_groups
collect_groups-blames bls mapping P [] bad h a = absurd cc
collect_groups-blames bls mapping P ((ti, sigs) ∷ groups) bad h a =
    elim (Outcome-cases
      (new_collection bls timeout_domain sigs mapping (encode_timeout_info [] ti))) [
        | inr (inl (x, e)) ↦
            new_collection-blames bls timeout_domain mapping (encode_timeout_info [] ti) P sigs bad
              (ground (arith, h, e)) a.0
        | inr (inr e) ↦ absurd (ground (arith, h, e))
        | inl (sc, e) ↦ elim (Outcome-cases (collect_groups bls mapping groups)) [
          | inl (r, q) ↦ absurd (ground (arith, h, e, q))
          | inr (inl (x, q)) ↦
              collect_groups-blames bls mapping P groups bad (ground (arith, h, e, q)) a.1
          | inr (inr q) ↦ absurd (ground (arith, h, e, q))
        ]
      ]
