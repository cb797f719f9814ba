-- ===== src/Extensions/Adapter/Laws.antt =====
-- What a plan guarantees of the artifacts that the Engine may write.
use mathlib.Core.List.{
  Nodup, Perm, map-append, append_assoc, append-nil, Nodup-nil, Nodup-cons, perm_append_singleton,
}
use mathlib.Core.List.Perm
use enistere_foundation.Base.{
  String, true, false, List, [], ◌∷◌, ◌++◌, some, map, ◌≡◌, ◌≢◌, refl, eq_refl, subst, sym, ap, ◌∙◌,
  arith, eq_iff, All, All-append, Bool-cases, inl, inr, includes,
}
use enistere_foundation.Base.Text.Sets.{includes_iff}
use enistere_foundation.Base.Dict.{get, put, has, keys, get-put, put_new, has-keys}
use enistere_foundation.Base.Sorting.{sort}
use enistere_foundation.Base.Sorting.Order.{
  by-IsOrder, compare_text-IsOrder, IsSorted, sort-IsSorted, sort-perm, sort-All,
}
use enistere_foundation.Contracts.Paths.{is_safe_artifact_path}
use enistere_foundation.Contracts.Refs.{Digest}
use enistere_foundation.Contracts.Digest.{returned, digest_of, file_digest}
use enistere_foundation.Contracts.Digest.Returns.{bind-eq-returned, returned-injective}
use enistere_foundation.Contracts.Types.Evidence.{AdapterId, owner_seeded}
use enistere_foundation.Contracts.Types.System.{
  OwnershipClass, owner_managed, shared_controlled, external,
}
use enistere_foundation.Compiler.Ir.{IrComponent}
use enistere_foundation.Extensions.Ownership.{PlannedArtifact}
use enistere_foundation.Extensions.Adapter.{
  Artifact, PlannedContents, artifact_ownership, planned_artifact, plan_loop, plan_json,
  plan_artifacts, by_path,
}

abbrev pub paths : List PlannedArtifact → List String
paths = map (λ (a : PlannedArtifact). a.path)

Nodup-snoc :
    (ts : List String) (t : String) → Nodup ts → includes ts t ≡ false → Nodup (ts ++ t ∷ [])
Nodup-snoc ts t n h =
    Perm.nodup (Perm.symm (perm_append_singleton t ts))
      (Nodup-cons.1 ((λ m. ground (arith, (includes_iff ts t).1 m, h)), n))

module _ (sha256 : String → String) where
  -- The content that is to be written is at hand, and the digest is that of the content.
  pub record IsBacked (contents : List (String × String)) (a : PlannedArtifact) : Type 0 where
    pub safe : is_safe_artifact_path a.path ≡ true
    pub content : String
    pub found : get contents a.path ≡ some content
    pub hashed : a.digest ≡ file_digest sha256 content

  record Inv (contents : List (String × String)) (planned : List PlannedArtifact) : Type 0 where
    same : keys contents ≡ paths planned
    distinct : Nodup (keys contents)
    backed : All (IsBacked contents) planned

  IsBacked-put :
      {contents : List (String × String)} (k content : String) {a : PlannedArtifact}
      → has contents k ≡ false
      → IsBacked contents a
      → IsBacked (put contents k content) a
  IsBacked-put {contents} k content {a} new b = record {
    safe = b.safe;
    content = b.content;
    found = rw (get-put contents k a.path content) (ground (arith, b.found, eq_iff k a.path));
    hashed = b.hashed;
  }

  All-IsBacked-put :
      (contents : List (String × String)) (k content : String) (planned : List PlannedArtifact)
      → has contents k ≡ false
      → All (IsBacked contents) planned
      → All (IsBacked (put contents k content)) planned
  All-IsBacked-put contents k content [] new h = tt
  All-IsBacked-put contents k content (a ∷ planned) new (b, h) =
      (IsBacked-put k content new b, All-IsBacked-put contents k content planned new h)

  Inv-next :
      (class : OwnershipClass) (a : Artifact) (contents : List (String × String))
      (planned : List PlannedArtifact)
      → is_safe_artifact_path a.path ≡ true
      → has contents a.path ≡ false
      → Inv contents planned
      → Inv (put contents a.path a.content) (planned ++ planned_artifact sha256 class a ∷ [])
  Inv-next class a contents planned safe new inv = record {
    same = rw (put_new contents a.path a.content new) (
        map-append _ contents _
        ∙ ap (λ ts. ts ++ a.path ∷ []) inv.same
        ∙ sym (map-append _ planned _));
    distinct =
        rw (put_new contents a.path a.content new, map-append)
          (Nodup-snoc (keys contents) a.path inv.distinct (sym (has-keys contents a.path) ∙ new));
    backed =
        All-append (IsBacked (put contents a.path a.content)) planned _
          (All-IsBacked-put contents a.path a.content planned new inv.backed)
          (
            record {
              safe = safe;
              content = a.content;
              found =
                  rw (get-put contents a.path a.path a.content) (ground (arith, eq_refl a.path));
              hashed = refl;
            },
            tt,
          );
  }

  plan_loop_sound :
      (class : OwnershipClass) (artifacts : List Artifact) (contents : List (String × String))
      (planned : List PlannedArtifact) (r : List (String × String) × List PlannedArtifact)
      → Inv contents planned
      → plan_loop sha256 class artifacts contents planned ≡ returned r
      → Inv r.0 r.1 × (r.1 ≡ planned ++ map (planned_artifact sha256 class) artifacts)
  unfolding plan_loop
  plan_loop_sound class [] contents planned r inv h =
      let e : (contents, planned) ≡ r = cc in
      (
        subst (λ (q : List (String × String) × List PlannedArtifact). Inv q.0 q.1) e inv,
        ap (λ (q : List (String × String) × List PlannedArtifact). q.1) (sym e)
            ∙ sym (append-nil planned),
      )
  plan_loop_sound class (a ∷ artifacts) contents planned r inv h =
      elim (Bool-cases (is_safe_artifact_path a.path)) [
        | inr unsafe ↦ absurd (cc (rw unsafe at h))
        | inl safe ↦ elim (Bool-cases (has contents a.path)) [
          | inl old ↦ absurd (cc (rw (safe, old) at h))
          | inr new ↦
              let (kept, all) =
                plan_loop_sound class artifacts _ _ r
                  (Inv-next class a contents planned safe new inv) (rw (safe, new) at h) in
              (kept, all ∙ append_assoc planned _ _)
        ]
      ]

  -- The artifact as it was given, but that a component of class OWNER_MANAGED is only seeded.
  pub record IsPlanned (class : OwnershipClass) (given : Artifact) (a : PlannedArtifact)
      : Type 0 where
    pub path : a.path ≡ given.path
    pub hashed : a.digest ≡ file_digest sha256 given.content
    pub seeded : class ≡ owner_managed → a.ownership ≡ owner_seeded
    pub kept : class ≢ owner_managed → a.ownership ≡ given.ownership

  abbrev pub ArePlanned : OwnershipClass → List Artifact → List PlannedArtifact → Type 0
  ArePlanned class [] [] = Unit
  ArePlanned class (given ∷ artifacts) (a ∷ planned) =
      IsPlanned class given a × ArePlanned class artifacts planned
  ArePlanned class _ _ = ⊥

  planned_artifact-IsPlanned :
      (class : OwnershipClass) (given : Artifact)
      → IsPlanned class given (planned_artifact sha256 class given)
  planned_artifact-IsPlanned class given = record {
    path = refl;
    hashed = refl;
    seeded = seeded class;
    kept = kept class;
  }
    where
      seeded :
          (c : OwnershipClass)
          → c ≡ owner_managed
          → artifact_ownership c given.ownership ≡ owner_seeded
      seeded OwnershipClass.compiler_owned e = cc
      seeded owner_managed e = refl
      seeded shared_controlled e = cc
      seeded external e = cc

      kept :
          (c : OwnershipClass)
          → c ≢ owner_managed
          → artifact_ownership c given.ownership ≡ given.ownership
      kept OwnershipClass.compiler_owned n = refl
      kept owner_managed n = absurd (n refl)
      kept shared_controlled n = refl
      kept external n = refl

  map-ArePlanned :
      (class : OwnershipClass) (artifacts : List Artifact)
      → ArePlanned class artifacts (map (planned_artifact sha256 class) artifacts)
  map-ArePlanned class [] = tt
  map-ArePlanned class (given ∷ artifacts) =
      (planned_artifact-IsPlanned class given, map-ArePlanned class artifacts)

  -- What `plan_artifacts` returns: the artifacts given, with the ownership that the component's class
  -- allows, in the order of their paths; each has a safe path of its own, and its content at hand.
  pub record IsPlan (component : IrComponent) (artifacts : List Artifact) (r : PlannedContents)
      : Type 0 where
    pub sorted : IsSorted by_path r.plan.artifacts
    pub planned : List PlannedArtifact
    pub as_given : ArePlanned component.ownership.class artifacts planned
    pub all : Perm r.plan.artifacts planned
    pub distinct : Nodup (paths r.plan.artifacts)
    pub backed : All (IsBacked r.contents) r.plan.artifacts

  abbrev sorted_plan :
      AdapterId
      → IrComponent
      → List (String × String)
      → List PlannedArtifact
      → Digest
      → PlannedContents
  sorted_plan adapter component contents planned digest = record {
    plan = record {
      component = component.id;
      adapter = adapter;
      ownership = component.ownership.class;
      artifacts = sort by_path planned;
      digest = digest;
    };
    contents = contents;
  }

  sorted_plan-IsPlan :
      (adapter : AdapterId) (component : IrComponent) (artifacts : List Artifact)
      (contents : List (String × String)) (planned : List PlannedArtifact) (digest : Digest)
      → Inv contents planned
      → planned ≡ map (planned_artifact sha256 component.ownership.class) artifacts
      → IsPlan component artifacts (sorted_plan adapter component contents planned digest)
  sorted_plan-IsPlan adapter component artifacts contents planned digest inv all = record {
    sorted = sort-IsSorted (by-IsOrder _ compare_text-IsOrder) planned;
    planned = planned;
    as_given =
        subst (ArePlanned component.ownership.class artifacts) (sym all)
          (map-ArePlanned component.ownership.class artifacts);
    all = sort-perm by_path planned;
    distinct =
        Perm.nodup (Perm.map _ (Perm.symm (sort-perm by_path planned)))
          (subst Nodup inv.same inv.distinct);
    backed = sort-All by_path (IsBacked contents) planned inv.backed;
  }

  -- A plan that `plan_artifacts` returns lists the given artifacts, each with its path, the
  -- digest of its content and its own ownership, but OWNER_SEEDED when the component's class is
  -- OWNER_MANAGED, in the order of their paths; the paths are distinct, each is safe, and each
  -- artifact's content is at hand and has its digest.
  pub plan_artifacts-IsPlan :
      (adapter : AdapterId) (component : IrComponent) (artifacts : List Artifact)
      (r : PlannedContents)
      → plan_artifacts sha256 adapter component artifacts ≡ returned r
      → IsPlan component artifacts r
  unfolding plan_artifacts
  plan_artifacts-IsPlan adapter component artifacts r h =
      let (looped, planned, h') =
        bind-eq-returned (plan_loop sha256 component.ownership.class artifacts [] []) _ h in
      let (digest, hashed, e) =
        bind-eq-returned (digest_of sha256 (plan_json component adapter (sort by_path looped.1))) _
          h' in
      let (inv, all) =
        plan_loop_sound component.ownership.class artifacts [] [] looped
          (record { same = refl; distinct = Nodup-nil; backed = tt }) planned in
      subst (IsPlan component artifacts) (returned-injective e)
        (sorted_plan-IsPlan adapter component artifacts looped.0 looped.1 digest inv all)
