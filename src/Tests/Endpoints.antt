-- ===== src/Tests/Endpoints.antt =====
-- The theorems on the enums, the message flow, the configuration and the resources, at examples.

use webthings.Common.{Bytes, [], ◌∷◌, none, true}
use webthings.Config.{Cfg}
use webthings.Resource.{resource_update_rep}
use webthings.Resource.Reps.{Updated, resource_update_rep_lem}
use webthings.Tests.{sensor}

abbrev nine_bytes : Bytes
nine_bytes = 1 ∷ 2 ∷ 3 ∷ 4 ∷ 5 ∷ 6 ∷ 7 ∷ 8 ∷ 9 ∷ []

abbrev stateless : Cfg
stateless = record { block_is_stateless = true; block_szx = 0 }

resource_update_rep_lem_example :
    Updated sensor
      (91 ∷ 93 ∷ [])
      50
      none
      (4 ∷ 3 ∷ 2 ∷ 1 ∷ [])
      (resource_update_rep sensor (91 ∷ 93 ∷ []) 50 none (4 ∷ 3 ∷ 2 ∷ 1 ∷ []))
resource_update_rep_lem_example =
    resource_update_rep_lem sensor (91 ∷ 93 ∷ []) 50 none (4 ∷ 3 ∷ 2 ∷ 1 ∷ [])
