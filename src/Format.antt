-- ===== src/Format.antt =====
-- common/format: the key under which a node's user is stored.
use ccaa.Base.{String, str_append, str_append_cancel, ◌≡◌}

unfoldable pub user_tag : String → String → String
user_tag tag uuid = str_append tag (str_append "|" uuid)

-- Under one node's tag, users with different uuids have different keys.
pub user_tag_injective : (tag u v : String) → user_tag tag u ≡ user_tag tag v → u ≡ v
unfolding user_tag
user_tag_injective tag u v h =
    str_append_cancel "|" u v (str_append_cancel tag (str_append "|" u) (str_append "|" v) h)
