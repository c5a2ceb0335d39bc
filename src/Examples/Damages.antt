-- ===== src/Examples/Damages.antt =====
-- Concrete damage that a client repairs.
use xwlrvnc.Base.{◌≡◌, refl, some, List, [], ◌∷◌, ◌++◌, ◌==◌, find}
use xwlrvnc.Damage.{DamageObj, bounding_box, is_obj, subtract}
use xwlrvnc.Damage.Repair.{Feed, fed, run, subtract-run}
use xwlrvnc.Util.Boxes.{Rectangle}
use xwlrvnc.Base.Int.{pos}

abbrev watching : DamageObj
watching = record { client = 1; id = 9; drawable = 300; level = bounding_box; region = [] }

abbrev part : Rectangle
part = record { x = pos 10; y = pos 20; width = 30; height = 40 }

abbrev feeds : List Feed
feeds =
    record {
      dead = λ client. client == 2;
      new = part ∷ record part { width = 0 } ∷ [];
      geom = (640, 480);
    }
    ∷ []

subtract-run_example :
    let (after, parts) = subtract 1 9 (run feeds (watching ∷ [])) in
    (parts ≡ watching.region ++ fed feeds)
    × (find (is_obj 1 9) after ≡ some (record watching { region = [] }))
subtract-run_example = subtract-run 1 9 feeds (watching ∷ []) watching (refl, tt) (refl) (refl)
