-- ===== src/Gpu/Roles.antt =====
-- classify_endpoints of provision.py: which endpoint answers as which server. A dict is the list of
-- its items in the order of insertion.
use mathlib.Core.Path.{subst}
use text.Mathlib.TextEquality.{eq_iff}
use atlas_compliance_copilot.Prelude.{
  ◌≡◌, refl, sym, ap, ◌∙◌, String, false, not, ◌&&◌, Option, none, some, List, [], ◌∷◌, ◌++◌,
  str_eq, Bool-cases, inl, inr, is_some, if◌then◌else◌, arith,
}

abbrev pub Roles : Type 0
Roles = List (String × String)

-- roles.get(role)
unfoldable pub get : String → Roles → Option String
get role [] = none
get role ((r, url) ∷ rs) = let rest = get role rs in if str_eq r role then some url else rest

-- `if role and role not in roles: roles[role] = url`
add_role : Option String → String → Roles → Roles
unfolding get
add_role none url roles = roles
add_role (some role) url roles =
    if not (str_eq role "") && not (is_some (get role roles))
    then roles ++ (role, url) ∷ []
    else roles

module _ {W : Type 0} (probe : String → W → Option String × W) where
  after_probe : String → (Roles → W → Roles × W) → Roles → Option String × W → Roles × W
  unfolding add_role
  after_probe url more roles (role, w) = more (add_role role url roles) w

  classify_from : List String → Roles → W → Roles × W
  unfolding after_probe
  classify_from [] roles w = (roles, w)
  classify_from (url ∷ urls) roles w = after_probe url (classify_from urls) roles (probe url w)

  unfoldable pub classify_endpoints : List String → W → Roles × W
  unfolding classify_from
  classify_endpoints endpoints w = classify_from endpoints [] w

  -- The probes' answers in order, each with its URL.
  pub answers : List String → W → List (String × Option String)
  answers [] w = []
  answers (url ∷ urls) w = (url, (probe url w).0) ∷ answers urls (probe url w).1

  -- The first URL that answered as the role.
  pub first_answer : String → List (String × Option String) → Option String
  first_answer role [] = none
  first_answer role ((url, none) ∷ rest) = first_answer role rest
  first_answer role ((url, some r) ∷ rest) =
      let later = first_answer role rest in if str_eq r role then some url else later

  or_else : Option String → Option String → Option String
  or_else none o = o
  or_else (some u) o = some u

  get-append :
      (role r url : String) (roles : Roles)
      → get role (roles ++ (r, url) ∷ [])
        ≡ or_else (get role roles) (if str_eq r role then some url else none)
  unfolding get or_else
  get-append role r url [] = refl
  get-append role r url ((k, u) ∷ rs) = ground (arith, get-append role r url rs)

  get-add_role :
      (role url : String) (a : Option String) (roles : Roles)
      → str_eq role "" ≡ false
      → get role (add_role a url roles)
        ≡ or_else (get role roles) (first_answer role ((url, a) ∷ []))
  unfolding add_role first_answer or_else
  get-add_role role url none roles h = ground arith
  get-add_role role url (some r) roles h = elim (Bool-cases (str_eq r role)) [
    | inl e ↦
        subst
          (λ q.
            get role (add_role (some q) url roles)
            ≡ or_else (get role roles) (if str_eq q role then some url else none))
          (sym ((eq_iff r role).0 e)) (ground (arith, h, get-append role role url roles))
    | inr e ↦ ground (arith, e, get-append role r url roles)
  ]

  or_else-first_answer :
      (role url : String) (a g : Option String) (rest : List (String × Option String))
      → or_else (or_else g (first_answer role ((url, a) ∷ []))) (first_answer role rest)
        ≡ or_else g (first_answer role ((url, a) ∷ rest))
  unfolding or_else first_answer
  or_else-first_answer role url a (some g) rest = refl
  or_else-first_answer role url none none rest = refl
  or_else-first_answer role url (some r) none rest = ground arith

  get-classify_from :
      (role : String) (urls : List String) (roles : Roles) (w : W)
      → str_eq role "" ≡ false
      → get role (classify_from urls roles w).0
        ≡ or_else (get role roles) (first_answer role (answers urls w))
  unfolding classify_from answers first_answer or_else after_probe
  get-classify_from role [] roles w h = ground arith
  get-classify_from role (url ∷ urls) roles w h =
      get-classify_from role urls (add_role (probe url w).0 url roles) (probe url w).1 h
      ∙ ap (λ o. or_else o (first_answer role (answers urls (probe url w).1)))
          (get-add_role role url (probe url w).0 roles h)
      ∙ or_else-first_answer role url (probe url w).0 (get role roles)
          (answers urls (probe url w).1)

  -- A role's URL is the first endpoint whose probe answered with that role.
  pub get-classify_endpoints :
      (role : String) (urls : List String) (w : W)
      → str_eq role "" ≡ false
      → get role (classify_endpoints urls w).0 ≡ first_answer role (answers urls w)
  unfolding classify_endpoints get or_else
  get-classify_endpoints role urls w h = get-classify_from role urls [] w h
