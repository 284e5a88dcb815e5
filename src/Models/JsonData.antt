-- ===== src/Models/JsonData.antt =====
-- JSON values as Python's json module reads them: integers and floats are different values.
use krewhub.Prelude.{ℕ, String, Bool, Option, none, some, ◌==◌, if◌then◌else◌}

-- `negsuc n` is -(n + 1).
pub data ℤ : Type 0 where
  pos : ℕ → ℤ
  negsuc : ℕ → ℤ

mutual
  pub data Json : Type 0 where
    null : Json
    bool : Bool → Json
    int : ℤ → Json
    -- A float by its bit pattern.
    float : ℕ → Json
    str : String → Json
    arr : Items → Json
    obj : Fields → Json

  pub data Items : Type 0 where
    nil : Items
    cons : Json → Items → Items

  pub data Fields : Type 0 where
    end : Fields
    field : String → Json → Fields → Fields

-- d.get(key), and `key in d` by whether it is some value.
unfoldable pub get : String → Fields → Option Json
get k end = none
get k (field j v rest) = let r = get k rest in if j == k then some v else r

abbrev pub empty_dict : Fields
empty_dict = end
