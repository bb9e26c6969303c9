-- ===== src/Tests/Cached.antt =====
-- The cached verdicts of a member that changes its nick and its channels.
use sekur_ircd.Base.{
  subst, none, ◌⊎◌, inl, inr, sym, ap, ◌∙◌, ◌==◌, ==→ne, ◌≡◌, ◌≢◌, refl, Bool, true, false, List,
  [], ◌∷◌, Option, some, Bytes, All, arith, not,
}
use sekur_ircd.Cstring.{codes}
use sekur_ircd.Channel.Masklist.{Mask, is_dynamic, masklist_add, masklist_del}
use sekur_ircd.Channel.Cache.{identity_hash, channel_ban_state}
use sekur_ircd.Channel.Cache.Room.{
  Event, ban, except, unexcept, ask, run, verdicts, asked, NoClash, Proper, new_room,
}
use sekur_ircd.Channel.Cache.Runs.{channel_ban_state-verdicts}
use sekur_ircd.Channel.Bans.{
  ban_hit, exception_hit, Extra, Identity, channel_is_quieted, channel_is_banned,
}
use sekur_ircd.Tests.Bans.{ann, in_dev}

-- The member has two nicks in turn, and leaves #dev under the first, which the hash does not show.
abbrev bea : Identity
bea = record ann { nick = codes "bea" }

abbrev in_ops : Option Extra
in_ops = some (record {
  realname = codes "Ann";
  secure = true;
  cl = some (record { certfp = []; channels = codes "#ops" ∷ [] });
})

data Comes : Option Extra → Identity → Type 0 where
  from_dev : Comes in_dev ann
  from_ops : Comes in_ops ann
  renamed : Comes in_dev bea

abbrev a_host : Bytes
a_host = codes "*!*@host.example"

abbrev SetHere : Bytes → Type 0
SetHere mask = (mask ≡ a_host) ⊎ (mask ≡ codes "~j:#dev")

other_hash : (identity_hash in_dev bea == identity_hash in_dev ann) ≡ false
unfolding identity_hash
other_hash = refl

same_hash : identity_hash in_ops ann ≡ identity_hash in_dev ann
unfolding identity_hash
same_hash = refl

hashes : identity_hash in_dev bea ≢ identity_hash in_dev ann
hashes = ==→ne (identity_hash in_dev bea) (identity_hash in_dev ann) other_hash

dynamic_dev : is_dynamic (codes "~j:#dev") ≡ true
unfolding is_dynamic
dynamic_dev = refl

only_host :
    (ms : List Mask)
    → All (λ m. SetHere m.mask) ms
    → All (λ m. is_dynamic m.mask ≡ false) ms
    → All (λ m. m.mask ≡ a_host) ms
only_host [] p q = tt
only_host (m ∷ ms) (inl e, p) (d, q) = (e, only_host ms p q)
only_host (m ∷ ms) (inr e, p) (d, q) =
    let t = sym (ap is_dynamic e) ∙ d in absurd (ground (arith, t, dynamic_dev))

ban_first :
    (x : Option Extra) (m : Mask) (ms : List Mask)
    → m.mask ≡ a_host
    → ban_hit x ann (m ∷ ms) ≡ some true
unfolding ban_hit
ban_first x m ms e =
    subst
      (λ k.
        ban_hit x ann (record { mask = k; set_at = m.set_at; set_by = m.set_by } ∷ ms) ≡ some true)
      (sym e) refl

same_ban :
    (ms : List Mask) → All (λ m. m.mask ≡ a_host) ms → ban_hit in_dev ann ms ≡ ban_hit in_ops ann ms
unfolding ban_hit
same_ban [] p = refl
same_ban (m ∷ ms) (e, p) = ban_first in_dev m ms e ∙ sym (ban_first in_ops m ms e)

exception_first :
    (x : Option Extra) (m : Mask) (ms : List Mask)
    → m.mask ≡ a_host
    → exception_hit x ann (m ∷ ms) ≡ some true
unfolding exception_hit
exception_first x m ms e =
    subst
      (λ k.
        exception_hit x ann (record { mask = k; set_at = m.set_at; set_by = m.set_by } ∷ ms)
        ≡ some true)
      (sym e) refl

same_exception :
    (ms : List Mask)
    → All (λ m. m.mask ≡ a_host) ms
    → exception_hit in_dev ann ms ≡ exception_hit in_ops ann ms
unfolding exception_hit
same_exception [] p = refl
same_exception (m ∷ ms) (e, p) = exception_first in_dev m ms e ∙ sym (exception_first in_ops m ms e)

passed_over :
    (x : Option Extra) (m : Mask) (ms : List Mask)
    → m.mask ≡ a_host
    → channel_is_quieted x ann (m ∷ ms) ≡ channel_is_quieted x ann ms
unfolding channel_is_quieted
passed_over x m ms e =
    subst
      (λ k.
        channel_is_quieted x ann (record { mask = k; set_at = m.set_at; set_by = m.set_by } ∷ ms)
        ≡ channel_is_quieted x ann ms)
      (sym e) refl

same_quiet :
    (ms : List Mask)
    → All (λ m. m.mask ≡ a_host) ms
    → channel_is_quieted in_dev ann ms ≡ channel_is_quieted in_ops ann ms
unfolding channel_is_quieted
same_quiet [] p = refl
same_quiet (m ∷ ms) (e, p) =
    passed_over in_dev m ms e ∙ same_quiet ms p ∙ sym (passed_over in_ops m ms e)

abbrev decided : Option Bool → Option Bool → Option Bool
decided hit excepted = elim hit [
  | none ↦ none
  | some false ↦ some false
  | some true ↦ elim excepted [ none ↦ none | some e ↦ some (not e) ]
]

same_banned :
    (bans es : List Mask)
    → ban_hit in_dev ann bans ≡ ban_hit in_ops ann bans
    → exception_hit in_dev ann es ≡ exception_hit in_ops ann es
    → channel_is_banned in_dev ann bans es ≡ channel_is_banned in_ops ann bans es
unfolding channel_is_banned
same_banned bans es p q =
    ap (λ o. decided o (exception_hit in_dev ann es)) p ∙ ap (decided (ban_hit in_ops ann bans)) q

moved :
    (bans es : List Mask)
    → All (λ m. SetHere m.mask) bans
    → All (λ m. SetHere m.mask) es
    → All (λ m. is_dynamic m.mask ≡ false) bans
    → All (λ m. is_dynamic m.mask ≡ false) es
    → verdicts in_dev ann bans es ≡ verdicts in_ops ann bans es
moved bans es p q r t =
    let b = only_host bans p r in
    let e = only_host es q t in
    rw (same_banned bans es (same_ban bans b) (same_exception es e), same_quiet bans b) refl

apart : NoClash SetHere Comes
apart _ _ _ _ bans es from_dev from_dev same p q r t = refl
apart _ _ _ _ bans es from_ops from_ops same p q r t = refl
apart _ _ _ _ bans es renamed renamed same p q r t = refl
apart _ _ _ _ bans es from_dev from_ops same p q r t = moved bans es p q r t
apart _ _ _ _ bans es from_ops from_dev same p q r t = sym (moved bans es p q r t)
apart _ _ _ _ bans es renamed from_dev same p q r t = absurd (hashes same)
apart _ _ _ _ bans es from_dev renamed same p q r t = absurd (hashes (sym same))
apart _ _ _ _ bans es renamed from_ops same p q r t = absurd (hashes (same ∙ same_hash))
apart _ _ _ _ bans es from_ops renamed same p q r t = absurd (hashes (sym same ∙ same_hash))

-- Questions before, between and after changes of both lists: the last one is asked after the member
-- has left #dev, which `~j:#dev` bans.
abbrev a_day : List Event
a_day =
    ask in_dev ann
    ∷ except a_host 5 true
    ∷ ask in_dev bea
    ∷ unexcept a_host
    ∷ ban (codes "~j:#dev") 7 true
    ∷ ask in_dev ann
    ∷ []

a_day-Proper : All (Proper SetHere Comes) a_day
a_day-Proper = (
  from_dev,
  ((inl refl, omega arith), (renamed, (tt, ((inr refl, omega arith), (from_dev, tt))))),
)

channel_ban_state-verdicts_example :
    asked (run new_room a_day) in_ops ann
    ≡ verdicts in_ops ann (run new_room a_day).bans.masks (run new_room a_day).exceptions.masks
channel_ban_state-verdicts_example =
    channel_ban_state-verdicts SetHere Comes a_day in_ops ann apart (omega arith) a_day-Proper
      from_ops

banned_by_dev : asked (run new_room a_day) in_dev ann ≡ some (true, false)
unfolding channel_ban_state masklist_add masklist_del
banned_by_dev = refl

gone_from_dev : asked (run new_room a_day) in_ops ann ≡ some (false, false)
unfolding channel_ban_state masklist_add masklist_del
gone_from_dev = refl
