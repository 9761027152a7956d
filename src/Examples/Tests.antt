-- ===== src/Examples/Tests.antt =====
-- Single runs of the code.
use geoplane.Base.{◌≡◌, refl, none, some}
use geoplane.Base.Text.{trim, trim_start, trim_end, is_space}
use geoplane.Tenancy.Audit.{stable_json}

trim_test : trim " ab " ≡ "ab"
unfolding trim trim_start trim_end is_space
trim_test = refl

stable_json_test :
    stable_json (record {
      action = "a\"b";
      target_type = none;
      target_id = some "x\n\u{1f}";
      actor_user_id = "u";
      created_at = "t";
    })
    ≡ "{\"action\":\"a\\\"b\",\"targetType\":null,\"targetId\":\"x\\n\\u001f\",\"actorUserId\":\"u\",\"createdAt\":\"t\"}"
unfolding stable_json
stable_json_test = refl
