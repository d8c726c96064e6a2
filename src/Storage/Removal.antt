-- ===== src/Storage/Removal.antt =====
-- `safe_rmtree` takes nothing outside its root, and names made from UUIDs are safe.
use yeoun_ai.Base.{arith, nat_eq, list_eq}
use yeoun_ai.Base.Text.{Text}
use yeoun_ai.Base.Dict
use yeoun_ai.Base.Uuid.{Uuid, str_uuid, All-str_uuid, str_uuid_head}
use yeoun_ai.Fs.{Fs}
use yeoun_ai.Storage.Resolve.{IsName}

-- `str(u)` is one plain component of a path.
pub IsName-str_uuid : (u : Uuid) → IsName (str_uuid u)
IsName-str_uuid u =
    let (c, t, e, h) = str_uuid_head u in
    record {
      no_slash = All-str_uuid u;
      nonempty = rw e;
      not_dot = rw e (ground arith);
      not_dots = rw e (ground arith);
    }
