-- ===== src/Utils/Tests.antt =====
-- Tests of the utilities.
use nestjs_vibe_engine.Prelude.{ℕ, ◌≡◌, refl, List, true, false, some}
use nestjs_vibe_engine.Js.Text.{codes}
use nestjs_vibe_engine.Utils.{mask_sensitive_data, is_valid_uuid, uuid_v4_regex, parse_boolean}
use nestjs_vibe_engine.Utils.Bounds.{mask_sensitive_data_hides}

abbrev secret : List ℕ
secret = codes "abcdefghij"

masked : mask_sensitive_data secret 2 ≡ codes "ab******ij"
unfolding mask_sensitive_data
masked = refl

abbrev other_secret : List ℕ
other_secret = codes "abXXXXXXij"

mask_sensitive_data_hides_example :
    mask_sensitive_data other_secret 2 ≡ mask_sensitive_data secret 2
mask_sensitive_data_hides_example =
    (mask_sensitive_data_hides secret other_secret 2 refl refl refl).0

uuid_valid : is_valid_uuid (codes "550E8400-e29b-41d4-A716-446655440000") ≡ true
unfolding is_valid_uuid uuid_v4_regex
uuid_valid = refl

uuid_of_version_1 : is_valid_uuid (codes "550e8400-e29b-11d4-a716-446655440000") ≡ false
unfolding is_valid_uuid uuid_v4_regex
uuid_of_version_1 = refl

yes_is_false : parse_boolean (some (codes "yes")) true ≡ false
unfolding parse_boolean
yes_is_false = refl

true_in_capitals : parse_boolean (some (codes "True")) false ≡ true
unfolding parse_boolean
true_in_capitals = refl
