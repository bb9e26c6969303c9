-- ===== src/Tests/Messages.antt =====
-- Message history at concrete inputs.
use sekur_ircd.Base.{
  ◌≤◌, ◌≡◌, refl, true, false, List, [], ◌∷◌, none, some, Bytes, length, arith, map,
}
use sekur_ircd.Cstring.{codes, str_eq}
use sekur_ircd.History.Buf.{
  Borrowed, HistBuf, new_buf, entry_dup, hist_buf_add, hist_buf_at, hist_buf_remove,
  hist_buf_resize, hist_buf_grow, hist_buf_store,
}
use sekur_ircd.History.Ring.{Inv, contents, keep_last}
use sekur_ircd.History.Ring.Queue.{Added, hist_buf_add-Added}
use sekur_ircd.History.Ring.Runs.{hist_buf_adds, hist_buf_adds-keep_last, new_buf-Inv}
use sekur_ircd.History.Ring.Remove.{table_without, hist_buf_remove-contents}
use sekur_ircd.History.Store.{
  Histories, Memory, history_get, history_add, history_rename, evict_oldest, hist_max_buffers,
}
use sekur_ircd.History.Store.Adds.{
  added, target, history_get-add, history_get-add_other, history_get-rename,
}
use sekur_ircd.History.Store.Evict.{Quietest, evict_oldest-Quietest, history_add-bounded}

abbrev message : Bytes → Borrowed
message id = record {
  ms = 7;
  msgid = some id;
  sender = some (codes "ann!ann@host");
  account = none;
  verb = some (codes "PRIVMSG");
  target = some (codes "#dev");
  text = some (codes "hi");
}

abbrev three : List Borrowed
three = message (codes "m1") ∷ message (codes "m2") ∷ message (codes "m3") ∷ []

ring_is :
    contents (hist_buf_adds (new_buf (codes "#dev")) 2 three)
    ≡ entry_dup (message (codes "m2")) ∷ entry_dup (message (codes "m3")) ∷ []
unfolding hist_buf_adds hist_buf_add hist_buf_at hist_buf_resize hist_buf_grow hist_buf_store
ring_is = refl

hist_buf_adds-keep_last_example :
    contents (hist_buf_adds (new_buf (codes "#dev")) 2 three) ≡ keep_last 2 (map entry_dup three)
hist_buf_adds-keep_last_example = hist_buf_adds-keep_last (codes "#dev") 2 three (omega arith)

-- A ring of two with one message.
abbrev one_message : HistBuf
one_message = hist_buf_add (new_buf (codes "#dev")) 2 (message (codes "m1")) true true

one_message-Inv : Inv one_message
one_message-Inv =
    (hist_buf_add-Added (new_buf (codes "#dev")) 2 (message (codes "m1")) true true
      (new_buf-Inv (codes "#dev")) (omega arith)).0

hist_buf_add-Added_example :
    Inv (hist_buf_add one_message 2 (message (codes "m2")) true false)
    × Added one_message
        (hist_buf_add one_message 2 (message (codes "m2")) true false)
        2
        (message (codes "m2"))
        true
        false
hist_buf_add-Added_example =
    hist_buf_add-Added one_message 2 (message (codes "m2")) true false one_message-Inv (omega arith)

hist_buf_remove-contents_example :
    contents (hist_buf_remove one_message 0)
    ≡ table_without (hist_buf_at one_message) 0 one_message.n
hist_buf_remove-contents_example = hist_buf_remove-contents one_message 0 one_message-Inv

abbrev kept_dev : HistBuf
kept_dev = new_buf (codes "#dev")

abbrev one_kept : Histories
one_kept = record { history = kept_dev ∷ []; history_dirty = false }

abbrev plenty : Memory
plenty = record { buf_ok = true; dup_ok = true; grow_ok = true }

history_get-add_example :
    history_get (history_add one_kept (codes "#ops") 5 (message (codes "m1")) plenty) (codes "#ops")
    ≡ some (
        added one_kept
          (codes "#ops")
          5
          (message (codes "m1"))
          plenty
          (target one_kept (codes "#ops") 5 (message (codes "m1")) plenty))
history_get-add_example =
    history_get-add one_kept (codes "#ops") 5 (message (codes "m1")) plenty (omega arith) refl

history_get-add_other_example :
    history_get (history_add one_kept (codes "#ops") 5 (message (codes "m1")) plenty) (codes "#dev")
    ≡ history_get one_kept (codes "#dev")
history_get-add_other_example =
    history_get-add_other one_kept (codes "#ops") 5 (message (codes "m1")) plenty (codes "#dev")
      (omega arith) refl (ground arith) (omega arith)

history_get-rename_example :
    history_get (history_rename one_kept (codes "#dev") (codes "#ops")) (codes "#ops")
    ≡ some (record kept_dev { key = codes "#ops" })
unfolding history_get str_eq
history_get-rename_example =
    history_get-rename one_kept (codes "#dev") (codes "#ops") (codes "#ops") kept_dev (tt, tt)
      (omega arith) (ground arith) refl

evict_oldest-Quietest_example : Quietest (kept_dev ∷ []) (evict_oldest (kept_dev ∷ []))
evict_oldest-Quietest_example = evict_oldest-Quietest kept_dev [] (tt, tt)

history_add-bounded_example :
    length (history_add one_kept (codes "#ops") 5 (message (codes "m1")) plenty).history
    ≤ hist_max_buffers
history_add-bounded_example =
    history_add-bounded one_kept (codes "#ops") 5 (message (codes "m1")) plenty (tt, tt)
      (omega arith)
