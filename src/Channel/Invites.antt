-- ===== src/Channel/Invites.antt =====
-- src/channel.c: whom /INVITE has admitted past +i, oldest first.
pub mod Queue
use sekur_ircd.Base.{
  ℕ, Bool, true, false, ◌||◌, List, [], ◌∷◌, ◌++◌, leb, if◌then◌else◌, Bytes, length, take, drop,
}
use sekur_ircd.Cstring.{str_eq}

-- CHAN_MAX_INVITED
abbrev pub chan_max_invited : ℕ
chan_max_invited = 64

-- The loops over `strcmp(chan->invited[i], key) == 0`.
unfoldable pub has_invite : List Bytes → Bytes → Bool
unfolding str_eq
has_invite [] key = false
has_invite (i ∷ is) key = str_eq i key || has_invite is key

-- A full list drops its oldest invite before it grows; `grow_ok` says whether client_list_grow gives
-- memory.
unfoldable pub channel_invite_add : List Bytes → Bytes → Bool → List Bytes
unfolding has_invite
channel_invite_add invited nick grow_ok =
    let room = if leb chan_max_invited (length invited) then drop 1 invited else invited in
    if has_invite invited nick then invited else if grow_ok then room ++ take 63 nick ∷ [] else room

unfoldable pub channel_invite_remove : List Bytes → Bytes → List Bytes
unfolding str_eq
channel_invite_remove [] nick = []
channel_invite_remove (i ∷ is) nick =
    let rest = channel_invite_remove is nick in if str_eq i nick then is else i ∷ rest
