-- ===== src/Tests/Roles.antt =====
-- Assigning roles, at concrete inputs.
use authpad.Prelude.{◌≡◌, refl, true, none, List, [], ◌∷◌, Text, codes}
use authpad.Prelude.Strings.{text_eq, trim_space, is_space, to_lower, equal_fold}
use authpad.Db.Rows.{Uuid, Role}
use authpad.Db.World.{World, Result, ok, statement}
use authpad.Org.Members.{RoleDefinition}
use authpad.User.Roles.{assign_role_by_name, is_allowed_role, get_by_name, assign_role}
use authpad.User.Roles.Assigned.{HasRole, assign_role_by_name_sound}
use authpad.Tests.Fixtures.{ascii, empty_world, no_idp}

abbrev editor : Role
editor = record { id = 3; name = codes "editor"; description = [] }

abbrev roles : List RoleDefinition
roles = record { name = codes "editor"; description = [] } ∷ []

abbrev no_ids : Text → Uuid
no_ids _ = 0

abbrev with_editor : World
with_editor = record empty_world { idp = record no_idp { roles = editor ∷ [] } }

abbrev run : Result (Unit {0}) × World
run = assign_role_by_name ascii roles no_ids none 7 (codes " Editor") with_editor

assigns : run ≡ (ok tt, run.1)
unfolding assign_role_by_name is_allowed_role get_by_name assign_role statement text_eq trim_space
    is_space to_lower equal_fold
assigns = refl

assign_role_by_name-sound_example :
    (is_allowed_role ascii roles no_ids none (trim_space (to_lower ascii (codes " Editor"))) ≡ true)
    × HasRole 7 (trim_space (to_lower ascii (codes " Editor"))) run.1
assign_role_by_name-sound_example =
    assign_role_by_name_sound ascii roles no_ids 7 (codes " Editor") with_editor run.1 assigns
