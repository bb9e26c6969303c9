-- ===== src/Tests/Channels.antt =====
-- What channels keep, at concrete inputs.
use sekur_ircd.Base.{◌≡◌, refl, inl, true, false, List, [], ◌∷◌, ◌++◌, Bytes, arith, if◌then◌else◌}
use sekur_ircd.Cstring.{codes}
use sekur_ircd.Channel.Masklist.{Masklist, masklist_add, masklist_del}
use sekur_ircd.Channel.Masklist.Lookup.{Inv}
use sekur_ircd.Channel.Masklist.Sets.{Added, Removed, masklist_add-Added, masklist_del-Removed}
use sekur_ircd.Channel.Invites.{has_invite, channel_invite_add}
use sekur_ircd.Channel.Invites.Queue.{
  newest, channel_invite_add-newest, channel_invite_remove-found,
}
use sekur_ircd.Channel.Invites.Queue as Queue

abbrev one_mask : Masklist
one_mask = record {
  allocated = true;
  masks = record { mask = codes "*!*@host"; set_at = 3; set_by = [] } ∷ [];
  gen = 1;
  dynamic = false;
}

one_mask-Inv : Inv one_mask
one_mask-Inv = record { bounded = omega arith; distinct = (tt, tt); backed = inl refl }

same_mask : (masklist_add one_mask (codes "*!*@HOST") 5 true).1 ≡ false
unfolding masklist_add
same_mask = refl

masklist_add-Added_example :
    Added one_mask
      (codes "bob!*@*")
      true
      (codes "BOB!*@*")
      (masklist_add one_mask (codes "bob!*@*") 5 true)
masklist_add-Added_example =
    masklist_add-Added one_mask (codes "bob!*@*") (codes "BOB!*@*") 5 true one_mask-Inv
      (omega arith)

masklist_del-Removed_example :
    Removed one_mask
      (codes "*!*@HOST")
      (codes "*!*@host")
      (masklist_del one_mask (codes "*!*@HOST"))
masklist_del-Removed_example =
    masklist_del-Removed one_mask (codes "*!*@HOST") (codes "*!*@host") one_mask-Inv

new_mask : (masklist_add one_mask (codes "bob!*@*") 5 true).1 ≡ true
unfolding masklist_add
new_mask = refl

abbrev ann_only : List Bytes
ann_only = codes "ann" ∷ []

channel_invite_add-newest_example :
    Queue.Inv (channel_invite_add ann_only (codes "bob") true)
    × (channel_invite_add ann_only (codes "bob") true ≡ (
        if has_invite ann_only (codes "bob")
        then ann_only
        else newest ann_only ++ codes "bob" ∷ []))
channel_invite_add-newest_example =
    channel_invite_add-newest ann_only (codes "bob") true (omega arith, (tt, tt)) (omega arith)
