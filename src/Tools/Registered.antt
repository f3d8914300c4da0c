-- ===== src/Tools/Registered.antt =====
-- What the registry of internal/tools/tool.go keeps true.
use xarlatan.Common.{
  ◌≡◌, refl, sym, ◌∙◌, inl, inr, true, false, not, ◌&&◌, ◌||◌, Option, none, some, List, [], ◌∷◌,
  ◌++◌, arith, All, All-append, Bool-cases, Option-cases, some_inj,
}
use xarlatan.Common.Text.{Text, is_empty, text_eq, text_eq_iff}
use xarlatan.Tools.{
  contains, ToolPolicy, add_names, with_allowed, allows, Tool, Registry, new_registry, find, get,
  is_denied, register,
}

-- No two tools have the same name.
abbrev pub IsUnique : {W : Type 0} → List (Tool W) → Type 0
IsUnique [] = Unit
IsUnique (t ∷ ts) = All (λ s. text_eq t.name s.name ≡ false) ts × IsUnique ts

-- A registry: every tool is allowed, no denied name is, and names are unique.
pub record IsRegistry {W : Type 0} (r : Registry W) : Type 0 where
  pub all_allowed : All (λ (t : Tool W). allows r.policy t.name ≡ true) r.tools
  pub none_denied : All (λ name. allows r.policy name ≡ false) r.denied
  pub unique : IsUnique r.tools

module _ {W : Type 0} where
  find-append :
      (ts us : List (Tool W)) (name : Text)
      → find ts name ≡ none
      → find (ts ++ us) name ≡ find us name
  unfolding find
  find-append [] us name h = refl
  find-append (t ∷ ts) us name h = ground (arith, h, find-append ts us name)

  find-kept :
      (ts us : List (Tool W)) (name : Text) (s : Tool W)
      → find ts name ≡ some s
      → find (ts ++ us) name ≡ some s
  unfolding find
  find-kept [] us name s h = absurd (cc)
  find-kept (t ∷ ts) us name s h = ground (arith, h, find-kept ts us name s)

  -- A tool that is found stands in the registry under that name.
  pub find_named :
      (P : Tool W → Type 0) (ts : List (Tool W)) (name : Text) (t : Tool W)
      → All P ts
      → find ts name ≡ some t
      → P t × (t.name ≡ name)
  unfolding find
  find_named P [] name t hp h = absurd (cc)
  find_named P (s ∷ ts) name t hp h = elim (Bool-cases (text_eq s.name name)) [
    | inl e ↦
        let same : s ≡ t = some_inj (rw (e, find) at h) in
        rw (sym same) (hp.0, (text_eq_iff s.name name).0 e)
    | inr e ↦ find_named P ts name t hp.1 (rw (e, find) at h)
  ]

  IsUnique-snoc :
      (ts : List (Tool W)) (t : Tool W)
      → IsUnique ts
      → find ts t.name ≡ none
      → IsUnique (ts ++ t ∷ [])
  unfolding find
  IsUnique-snoc [] t u h = (tt, tt)
  IsUnique-snoc (s ∷ ts) t u h = elim (Bool-cases (text_eq s.name t.name)) [
    | inl e ↦ absurd (ground (arith, e))
    | inr e ↦ (
      All-append (λ (x : Tool W). text_eq s.name x.name ≡ false) ts (t ∷ []) u.0 (e, tt),
      IsUnique-snoc ts t u.1 (rw (e, find) at h),
    )
  ]

  pub new_registry-IsRegistry : (p : Option ToolPolicy) → IsRegistry (new_registry {W = W} p)
  unfolding new_registry
  new_registry-IsRegistry none = record { all_allowed = tt; none_denied = tt; unique = tt }
  new_registry-IsRegistry (some p) = record { all_allowed = tt; none_denied = tt; unique = tt }

  -- Registering keeps the registry well formed, whether the tool is taken, denied or refused.
  pub register-IsRegistry :
      (r : Registry W) (t : Tool W) → IsRegistry r → IsRegistry (register r t).0
  unfolding register get
  register-IsRegistry r t h = elim (Bool-cases (allows r.policy t.name)) [
    | inr e ↦
        rw (e, register)
          (record {
            all_allowed = h.all_allowed;
            none_denied = (e, h.none_denied);
            unique = h.unique;
          })
    | inl e ↦ elim (Option-cases (find r.tools t.name)) [
      | inr (s, f) ↦ rw (e, f, register) h
      | inl f ↦
          rw (e, f, register)
            (record {
              all_allowed =
                  All-append (λ (x : Tool W). allows r.policy x.name ≡ true) r.tools (t ∷ [])
                    h.all_allowed (e, tt);
              none_denied = h.none_denied;
              unique = IsUnique-snoc r.tools t h.unique f;
            })
    ]
  ]

  -- What one registration does: the tool is found afterwards if its name was free and allowed, and
  -- whatever was found before is found still. A name that the policy forbids is denied from then on.
  pub register-get :
      (r : Registry W) (t : Tool W) (name : Text)
      → ((register r t).1 ≡ none → get (register r t).0 t.name ≡ some t)
        × (allows r.policy t.name ≡ false → is_denied (register r t).0 t.name ≡ true)
        × ((s : Tool W) → get r name ≡ some s → get (register r t).0 name ≡ some s)
  unfolding register get is_denied contains
  register-get r t name = elim (Bool-cases (allows r.policy t.name)) [
    | inr e ↦
        rw (e, register)
          (λ h. absurd (cc), λ _. rw ((text_eq_iff t.name t.name).1 refl) refl, λ s h. h)
    | inl e ↦ elim (Option-cases (find r.tools t.name)) [
      | inr (s, f) ↦ rw (e, f, register) (λ h. absurd (cc), λ h. absurd (cc), λ s' h. h)
      | inl f ↦
          rw (e, f, register)
            (λ _. found f, λ h. absurd (cc), λ s h. find-kept r.tools (t ∷ []) name s h)
    ]
  ]
    where
      found : find r.tools t.name ≡ none → find (r.tools ++ t ∷ []) t.name ≡ some t
      found f =
          find-append r.tools (t ∷ []) t.name f
          ∙ unfold find in rw ((text_eq_iff t.name t.name).1 refl) refl

contains-add_names :
    (ns allowed : List Text) (n : Text)
    → contains (add_names allowed ns) n
      ≡ (contains allowed n || (not (is_empty n) && contains ns n))
unfolding contains add_names text_eq
contains-add_names [] allowed n = ground arith
contains-add_names ([] ∷ ns) allowed [] = ground (arith, contains-add_names ns allowed [])
contains-add_names ([] ∷ ns) allowed (c ∷ n) = ground (arith, contains-add_names ns allowed (c ∷ n))
contains-add_names ((d ∷ m) ∷ ns) allowed [] =
    ground (arith, contains-add_names ns ((d ∷ m) ∷ allowed) [])
contains-add_names ((d ∷ m) ∷ ns) allowed (c ∷ n) =
    ground (arith, contains-add_names ns ((d ∷ m) ∷ allowed) (c ∷ n))

-- `WithAllowed` adds exactly the names that it is given, the empty one left out.
pub allows-with_allowed :
    (p : ToolPolicy) (ns : List Text) (n : Text)
    → allows (with_allowed p ns) n ≡ (allows p n || (not (is_empty n) && contains ns n))
unfolding allows with_allowed
allows-with_allowed p ns n = ground (arith, contains-add_names ns p.allowed n)
