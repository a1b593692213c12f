-- ===== src/Temporal/Identity.antt =====
-- What the identifiers of backend/app/temporal_*.py rest on and the repository does not define:
-- `hashlib.sha256(...).hexdigest()`, `json.dumps` and `datetime.isoformat` are a parameter. Its one
-- law is hexdigest's documented form, 64 lowercase hexadecimal digits.
use openassetwatch.Prelude.{ℕ, ◌≡◌, Bool, true, String, List, ◌++◌, take}
use openassetwatch.Text.{Text, join_unit, is_hex_of_length, is_tagged_digest, tagged-take}

mutual
  pub data Json : Type 0 where
    null : Json
    text : Text → Json
    number integer : ℕ → Json
    boolean : Bool → Json
    array : Items → Json
    object : Fields → Json

  pub data Items : Type 0 where
    nil : Items
    cons : Json → Items → Items

  pub data Fields : Type 0 where
    end : Fields
    field : String → Json → Fields → Fields

pub record Hashing : Type 0 where
  pub sha256_hexdigest : Text → Text
  pub dumps : Json → Text
  pub isoformat : ℕ → Text
  pub hexdigest_form : (t : Text) → is_hex_of_length 64 (sha256_hexdigest t) ≡ true

-- `tag + hashlib.sha256("\x1f".join(parts).encode("utf-8")).hexdigest()[:32]`
unfoldable pub tagged_digest : Hashing → Text → List Text → Text
tagged_digest h tag parts = tag ++ take 32 (h.sha256_hexdigest (join_unit parts))

pub tagged_digest-is_tagged_digest :
    (h : Hashing) (tag : Text) (parts : List Text)
    → is_tagged_digest tag (tagged_digest h tag parts) ≡ true
unfolding tagged_digest
tagged_digest-is_tagged_digest h tag parts = tagged-take tag _ (h.hexdigest_form (join_unit parts))
