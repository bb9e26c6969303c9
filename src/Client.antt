-- ===== src/Client.antt =====
-- src/client.c, src/client.h: a connection, its modes, its prefix and the queues it stands in.
pub mod Umodes
pub mod Queues
pub mod Flood
pub mod Send
use Prim.Native.Nat.{bit_and}
use sekur_ircd.Base.{
  ℕ, ◌+◌, ◌-◌, Bool, true, false, not, ◌&&◌, ◌||◌, List, [], ◌∷◌, ◌++◌, ◌==◌, if◌then◌else◌, Bytes,
  take,
}
use sekur_ircd.Proto.Mask.{irc_ident_for}
use sekur_ircd.Spam.Track.{Tracker}

-- The fields of `client_t` that the modelled operations read. `id` is the pointer, `has_socket` is
-- `fd >= 0`, and `dead_q` says that the client stands in the teardown queue.
pub record Client : Type 0 where
  pub id : ℕ
  pub has_socket : Bool
  pub is_service : Bool
  pub nick : Bytes
  pub user : Bytes
  pub host : Bytes
  pub ip : Bytes
  pub ident_confirmed : Bool
  pub umodes : ℕ
  pub account : Bytes
  pub acct_created_for : Bytes
  pub acct_created : ℕ
  pub signon_time : ℕ
  pub quitting : Bool
  pub dirty_q : Bool
  pub dead_q : Bool
  pub quit_reason : Bytes
  pub tracker : Tracker

-- UMODE_O
abbrev pub is_oper : Client → Bool
is_oper cl = not (bit_and cl.umodes 16 == 0)

-- `irc_prefix_for`
unfoldable pub irc_prefix_for : ℕ → Bytes → Bytes → Bytes → Bytes
unfolding irc_ident_for
irc_prefix_for outsz nick [] host = take (outsz - 1) (nick ++ (b'@' ∷ host))
irc_prefix_for outsz nick (c ∷ user) host =
    take (outsz - 1) (nick ++ (b'!' ∷ (irc_ident_for 128 (c ∷ user) false ++ (b'@' ∷ host))))

abbrev pub or_star : Bytes → Bytes
or_star [] = b'*' ∷ []
or_star (c ∷ s) = c ∷ s

unfoldable pub client_prefix : Client → ℕ → Bytes
unfolding irc_prefix_for
client_prefix cl outsz =
    if cl.ident_confirmed
    then take (outsz - 1) (or_star cl.nick ++ (b'!' ∷ (cl.user ++ (b'@' ∷ or_star cl.host))))
    else irc_prefix_for outsz (or_star cl.nick) cl.user (or_star cl.host)

unfoldable pub client_ident : Client → Bytes
unfolding irc_ident_for
client_ident cl = irc_ident_for 66 cl.user cl.ident_confirmed
