-- ===== src/Compiler/Policy/Catalog.antt =====
-- kernel/compiler/src/policy.ts: the rules that the compiler interprets, and what each constrains.
use Prim.Native.Char.{Char, code}
use enistere_foundation.Base.{
  String, ℕ, Bool, true, false, ◌&&◌, ◌||◌, List, [], ◌∷◌, Option, none, some, map, find, keep, leb,
  eqb, ◌==◌, ◌<>◌, is_some, if◌then◌else◌, ◌>>=◌,
}
use enistere_foundation.Base.Paths.{has_prefix}
use enistere_foundation.Base.Patterns.{is_digit, is_small}
use enistere_foundation.Compiler.Ir.{
  SystemIr, IrComponent, IrIntegration, IrEnvironment, DesignBinding,
}
use enistere_foundation.Compiler.Resolve.{ResolvedSystem, ResolvedComponent}
use enistere_foundation.Contracts.Json.{Json, null, text, array, Items, nil, item}

-- `check` is none when the rule does not apply to the subject.
pub record Subject : Type 0 where
  pub subject : String
  pub actual : Json
  pub check : Option (Json → Bool)
  pub reason : Option String

-- `values(value).some(p)`
abbrev any_item : (Json → Bool) → Items → Bool
any_item p nil = false
any_item p (item v vs) = p v || any_item p vs

abbrev any_value : (Json → Bool) → Json → Bool
any_value p (array vs) = any_item p vs
any_value p value = p value

abbrev is_text : String → Json → Bool
is_text t (text u) = u == t
is_text t _ = false

-- `values(value).includes(t)`
abbrev pub allows : String → Json → Bool
allows t value = any_value (is_text t) value

-- The rest of a text after a prefix.
unfoldable after : String → String → Option String
after String.[] s = some s
after (String.◌∷◌ c t) String.[] = none
after (String.◌∷◌ c t) (String.◌∷◌ d s) =
    let rest = after t s in if eqb (code c) (code d) then rest else none

abbrev is_family : Char → Bool
is_family c = is_small (code c) || is_digit (code c)

-- `([a-z0-9]+)\.allowed$`, the group with at least one character.
unfoldable family : Bool → String → Option String
family empty String.[] = none
family empty (String.◌∷◌ c s) =
    let rest = family false s in
    if is_family c
    then rest >>= (λ t. some (String.◌∷◌ c t))
    else if empty
    then none
    else if String.◌∷◌ c s == ".allowed"
    then some ""
    else none

-- `/^runtime\.([a-z0-9]+)\.allowed$/`
unfoldable pub runtime_family : String → Option String
unfolding after family
runtime_family rule = after "runtime." rule >>= family true

abbrev runtime_subject : String → Option String → Subject
runtime_subject component none = record {
  subject = component;
  actual = null;
  check = none;
  reason = some "no runtime is resolved for this component";
}
runtime_subject component (some runtime) = record {
  subject = component;
  actual = text runtime;
  check = some (allows runtime);
  reason = none;
}

-- `resolved.components.find((candidate) => candidate.id === component.id)?.runtime ?? null`
abbrev pub runtime_of : ResolvedSystem → String → Option String
runtime_of resolved component =
    find (λ (c : ResolvedComponent). c.id == component) resolved.components >>= (λ c. c.runtime)

abbrev pub runtime_subjects : Option String → SystemIr → ResolvedSystem → List Subject
runtime_subjects none ir resolved = []
runtime_subjects (some family) ir resolved =
    map (λ (c : IrComponent). runtime_subject c.id (runtime_of resolved c.id))
      (keep (λ c. has_prefix (family <> "-") c.kind) ir.components)

abbrev provider_allowed : Option String → Json → Bool
provider_allowed none value = false
provider_allowed (some provider) value = allows provider value

abbrev text_of : Option String → Json
text_of none = null
text_of (some t) = text t

abbrev identity_subjects : SystemIr → List Subject
identity_subjects ir =
    map
      (λ (i : IrIntegration). record {
        subject = i.id;
        actual = text_of i.provider;
        check = some (provider_allowed i.provider);
        reason = none;
      })
      (keep (λ i. i.kind == "oidc-provider") ir.integrations)

abbrev pub covers : String → Json → Bool
covers region (text allowed) = region == allowed || has_prefix (allowed <> "-") region
covers region _ = false

abbrev residency_subject : String → Option String → Subject
residency_subject environment none = record {
  subject = environment;
  actual = null;
  check = none;
  reason = some "the environment declares no region";
}
residency_subject environment (some region) = record {
  subject = environment;
  actual = text region;
  check = some (any_value (covers region));
  reason = none;
}

-- `LEVELS.indexOf(level)`, from 1; 0 for -1.
abbrev level_rank : String → ℕ
level_rank level =
    if level == "A" then 1 else if level == "AA" then 2 else if level == "AAA" then 3 else 0

-- The rank that `/^WCAG-2\.2-(A|AA|AAA)$/` reads.
abbrev required_rank : Json → Option ℕ
required_rank (text t) =
    if t == "WCAG-2.2-A"
    then some 1
    else if t == "WCAG-2.2-AA"
    then some 2
    else if t == "WCAG-2.2-AAA"
    then some 3
    else none
required_rank _ = none

abbrev reaches : String → String → Option ℕ → Bool
reaches standard level none = false
reaches standard level (some required) = standard == "WCAG-2.2" && leb required (level_rank level)

abbrev accessibility_subject : DesignBinding → Subject
accessibility_subject b = record {
  subject = b.component;
  actual = text (b.accessibility.standard <> "-" <> b.accessibility.level);
  check =
      some (λ value. reaches b.accessibility.standard b.accessibility.level (required_rank value));
  reason = none;
}

pub record PolicyRule : Type 0 where
  pub pattern : String → Bool
  pub evaluate : String → SystemIr → ResolvedSystem → List Subject

-- The closed catalog. No evaluator of it gives null.
unfoldable pub policy_catalog : List PolicyRule
unfolding runtime_family has_prefix
policy_catalog =
    record {
      pattern = λ rule. is_some (runtime_family rule);
      evaluate = λ rule ir resolved. runtime_subjects (runtime_family rule) ir resolved;
    }
    ∷ record {
      pattern = λ rule. rule == "security.identity.provider";
      evaluate = λ rule ir resolved. identity_subjects ir;
    }
    ∷ record {
      pattern = λ rule. rule == "data.residency";
      evaluate = λ rule ir resolved.
          map (λ (e : IrEnvironment). residency_subject e.id e.region) ir.environments;
    }
    ∷ record {
      pattern = λ rule. rule == "quality.accessibility.level";
      evaluate = λ rule ir resolved. map accessibility_subject ir.design_bindings;
    }
    ∷ []
