-- ===== src/Store/Authority.antt =====
-- internal/store: who may do what in a channel (incidents.go, timeline.go).
use tintwire.Prelude.{
  String, Bool, true, false, not, ◌&&◌, ◌||◌, ◌==◌, string_eq, if◌then◌else◌, any_row, find_row,
  select_where,
}
use tintwire.Store.Op.{Op, pure, forbidden, not_found, query, require, require_some, ◌>>=◌}
use tintwire.Store.Tables.{Db, User, Channel, Role, viewer}

-- `role IN ('operator','channel_admin')`
abbrev pub may_operate : Role → Bool
may_operate viewer = false
may_operate _ = true

abbrev pub is_member : Db → String → String → Bool
is_member db user_id channel_id =
    any_row (λ m. m.user_id == user_id && m.channel_id == channel_id) db.memberships

abbrev pub is_operator : Db → String → String → Bool
is_operator db user_id channel_id =
    any_row (λ m. m.user_id == user_id && m.channel_id == channel_id && may_operate m.role)
      db.memberships

-- the query of `RequireChannelOperator`
unfoldable pub operates : Db → String → String → Bool
operates db user_id channel_id =
    any_row (λ c. c.id == channel_id) db.channels
    && any_row
        (λ u.
          u.id == user_id && not u.disabled && (u.is_admin || is_operator db user_id channel_id))
        db.users

-- `RequireChannelOperator`
unfoldable pub require_channel_operator : String → String → Op Db (Unit {0})
require_channel_operator user_id channel_id = do
  allowed ← query (λ db. operates db user_id channel_id)
  require allowed forbidden

-- `ChannelIDByName`
unfoldable pub channel_id_by_name : String → Op Db String
channel_id_by_name name = do
  row ← query (λ db. select_where (λ c. c.name == name) db.channels)
  c ← require_some row not_found
  pure (c.id)

-- the rest of `channelReadable`, once the channel is found
unfoldable pub readable_in : Db → User → Channel → Bool
readable_in db user c =
    if user.is_admin
    then true
    else if user.id == ""
    then c.is_public
    else c.is_public || is_member db user.id c.id

-- `channelReadable`
unfoldable pub channel_readable : User → String → Op Db Bool
channel_readable user channel_id = do
  row ← query (λ db. find_row (λ c. c.id) channel_id db.channels)
  c ← require_some row not_found
  query (λ db. readable_in db user c)
