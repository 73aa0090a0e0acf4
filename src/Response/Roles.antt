-- ===== src/Response/Roles.antt =====
-- The values of the roles of an operator, and the role of a value.
use flood_agent.Base.{
  ◌≡◌, ◌∙◌, refl, sym, ap, Option, none, some, List, [], ◌∷◌, Text, codes, text_eq, if◌then◌else◌,
  Lacks,
}
use flood_agent.Response.Enums.{
  OperatorRole, duty_officer, reviewer, commander, liaison, field_operator, auditor, admin,
  external_service,
}

-- `OperatorRole.value`
abbrev pub role_value : OperatorRole → Text
role_value duty_officer = codes "duty_officer"
role_value reviewer = codes "reviewer"
role_value commander = codes "commander"
role_value liaison = codes "liaison"
role_value field_operator = codes "field_operator"
role_value auditor = codes "auditor"
role_value admin = codes "admin"
role_value external_service = codes "external_service"

abbrev role_among : List OperatorRole → Text → Option OperatorRole
role_among [] s = none
role_among (r ∷ rs) s = if text_eq s (role_value r) then some r else role_among rs s

-- `OperatorRole(value)`
unfoldable pub role_named : Text → Option OperatorRole
role_named = role_among (
    duty_officer ∷ reviewer ∷ commander ∷ liaison ∷ field_operator ∷ auditor ∷ admin
    ∷ external_service ∷ [])

pub role_named-role_value : (r : OperatorRole) → role_named (role_value r) ≡ some r
unfolding role_named
role_named-role_value duty_officer = refl
role_named-role_value reviewer = refl
role_named-role_value commander = refl
role_named-role_value liaison = refl
role_named-role_value field_operator = refl
role_named-role_value auditor = refl
role_named-role_value admin = refl
role_named-role_value external_service = refl

pub role_value-inj : (r s : OperatorRole) → role_value r ≡ role_value s → r ≡ s
role_value-inj r s h =
    let e : some r ≡ some s =
      sym (role_named-role_value r) ∙ ap role_named h ∙ role_named-role_value s in
    cc

pub role_value-Lacks_colon : (r : OperatorRole) → Lacks b':' (role_value r)
role_value-Lacks_colon duty_officer = refl
role_value-Lacks_colon reviewer = refl
role_value-Lacks_colon commander = refl
role_value-Lacks_colon liaison = refl
role_value-Lacks_colon field_operator = refl
role_value-Lacks_colon auditor = refl
role_value-Lacks_colon admin = refl
role_value-Lacks_colon external_service = refl

pub role_value-Lacks_newline : (r : OperatorRole) → Lacks 0x0a (role_value r)
role_value-Lacks_newline duty_officer = refl
role_value-Lacks_newline reviewer = refl
role_value-Lacks_newline commander = refl
role_value-Lacks_newline liaison = refl
role_value-Lacks_newline field_operator = refl
role_value-Lacks_newline auditor = refl
role_value-Lacks_newline admin = refl
role_value-Lacks_newline external_service = refl
