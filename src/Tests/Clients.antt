-- ===== src/Tests/Clients.antt =====
-- Queues and sending at concrete inputs.
use sekur_ircd.Base.{◌+◌, ◌||◌, ◌==◌, leb, ◌≡◌, refl, true, false, [], ◌∷◌, arith}
use sekur_ircd.Cstring.{codes}
use sekur_ircd.Client.{Client}
use sekur_ircd.Client.Umodes.{client_mode_string}
use sekur_ircd.Client.Flood.{admitted, admitted-window}
use sekur_ircd.Client.Queues.{
  Kept, client_mark_dirty, client_unmark_dirty, client_mark_quit, queues-Kept,
}
use sekur_ircd.Client.Send.{Out, time_tag, encoded, client_send}
use sekur_ircd.Client.Send.Queue.{Room, Queued, Noticed, client_send-Queued}

abbrev ann : Client
ann = record {
  id = 1;
  has_socket = true;
  is_service = false;
  nick = codes "ann";
  user = codes "ann";
  host = codes "cloak";
  ip = codes "192.0.2.1";
  ident_confirmed = false;
  umodes = 0;
  account = [];
  acct_created_for = [];
  acct_created = 0;
  signon_time = 10;
  quitting = false;
  dirty_q = true;
  dead_q = false;
  quit_reason = [];
  tracker = record { ring = []; head = 0 };
}

queues-Kept_example :
    Kept 1
      (2 ∷ 1 ∷ [])
      ((client_mark_dirty ann (2 ∷ 1 ∷ [])).0.dirty_q)
      ((client_mark_dirty ann (2 ∷ 1 ∷ [])).1)
    × Kept 1
        (2 ∷ 1 ∷ [])
        ((client_unmark_dirty ann (2 ∷ 1 ∷ [])).0.dirty_q)
        ((client_unmark_dirty ann (2 ∷ 1 ∷ [])).1)
    × Kept 1 (3 ∷ []) ((client_mark_quit ann (3 ∷ [])).0.dead_q) ((client_mark_quit ann (3 ∷ [])).1)
queues-Kept_example =
    queues-Kept ann (2 ∷ 1 ∷ []) (3 ∷ []) (refl, (refl, (refl, tt))) (refl, (refl, tt))

abbrev fresh : Out
fresh = record {
  quitting = false;
  quit_reason = [];
  server_time = true;
  dirty = false;
  sendq_max = 0;
  sbuf = codes "PING :x\r\n";
  sbuf_off = 2;
  sbuf_cap = 16;
  label = [];
  label_capture = false;
  label_defer = false;
  label_buf = [];
  label_len = 0;
  label_cap = 0;
  label_lines = 0;
}

tagged :
    encoded (time_tag fresh (codes "T") (codes "@a=b PING")) (codes "@a=b PING")
    ≡ codes "@a=b;time=T PING\r\n"
unfolding encoded time_tag
tagged = refl

already : time_tag fresh (codes "T") (codes "@a;time=U PING") ≡ ([], 0)
unfolding time_tag
already = refl

client_send-Queued_example :
    Room (client_send (λ n. true) (codes "T") fresh (codes "PONG"))
    × Queued
        (λ n. true)
        fresh
        (encoded (time_tag fresh (codes "T") (codes "PONG")) (codes "PONG"))
        (client_send (λ n. true) (codes "T") fresh (codes "PONG"))
    × (Noticed fresh → Noticed (client_send (λ n. true) (codes "T") fresh (codes "PONG")))
client_send-Queued_example =
    client_send-Queued (λ n. true) (codes "T") fresh (codes "PONG")
      (record {
        offset = omega arith;
        fits = omega arith;
        some_cap = omega arith;
        within = omega arith;
      })
      refl refl

first_opens : (0 == 0 || leb (0 + 10) 100) ≡ true
first_opens = refl

admitted-window_example :
    admitted 2 10 (record { window_start = 0; count = 0 }) (100 ∷ 101 ∷ 105 ∷ 109 ∷ []) ≡ 2
admitted-window_example =
    admitted-window 2 10 100 (record { window_start = 0; count = 0 }) (101 ∷ 105 ∷ 109 ∷ [])
      (omega arith) (omega arith) first_opens (omega arith, (omega arith, (omega arith, tt)))

mode_string : client_mode_string 0x11 32 ≡ codes "+io"
unfolding client_mode_string
mode_string = refl
