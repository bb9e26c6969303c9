-- ===== src/Lib.antt =====
-- SekurIRCd, an IRC server in C: a verification library of its core logic.
--
-- Text is the list of its bytes, numbers below 256; a C string is the bytes in front of its NUL.
-- Sizes, times and counters are natural numbers, and subtraction stops at 0: each place where the
-- source subtracts has a guard in front of it or says what happens.
--
-- Files:
--   Base, Base/Tests, Base/Lists  the libraries' names, Boolean tests, lists by native numbers
--   Cstring                       ctype and strcmp, as the program uses them in the C locale
--   Proto                         src/proto.c, src/proto.h
--     Proto/Tags                  escape_tag_value, unescape_tag_value_inplace
--     Proto/Strings               irc_escape, irc_casefold
--     Proto/Parse                 irc_parse_line: tags, prefix, trailing text and tokens one by one
--     Proto/Build                 irc_build: each append returns `none` where the source returns -1
--     Proto/Glob                  irc_glob_match, and the relation Matches that says what it means
--     Proto/Mask                  irc_ident_for, irc_mask_match
--     Proto/Names                 irc_valid_nick, irc_valid_user, irc_valid_channel, irc_valid_host
--     Proto/Duration, Proto/Utf8  irc_parse_duration, irc_utf8_valid
--     Proto/Address               irc_ip_mask_match, irc_host_mask_match, irc_ip_normalize,
--                                 irc_ip_limit_key
--     Proto/Proxy                 irc_proxy_v2_parse
--     Proto/Relay                 irc_add_time_tag, irc_host_tail, json_put_string
--   Client                        src/client.c, src/client.h: client_prefix, client_ident
--     Client/Umodes, Client/Flood client_umode_bit, client_mode_string, client_flood_ok
--     Client/Queues               client_mark_dirty, client_unmark_dirty, client_mark_quit
--     Client/Send                 client_send, client_label_begin, client_label_end, and
--                                 irc_time_tag_insert of src/proto.c
--   Channel                       src/channel.c, src/channel.h
--     Channel/Masklist            masklist_t: masklist_add, masklist_del, masklist_free
--     Channel/Invites             channel_invite_add, channel_invite_remove
--     Channel/Bans                channel_mask_hit and the verdicts: channel_is_banned,
--                                 channel_is_quieted, channel_is_nickbanned, channel_ban_forward,
--                                 channel_is_invited
--     Channel/Cache               channel_ban_state
--     Channel/Members             channel_member_visible, channel_rank_prefix, channel_rank_level,
--                                 channel_mask_expired
--   History                       src/history.c, src/history.h
--     History/Buf                 hist_buf_t and the operations on one ring
--     History/Store               the table of conversations, a part of server_t
--     History/Keys                the keys of channels and of private conversations
--   Ws                            src/ws.c: ws_frame_header, ws_encode_frame, ws_decode_frame
--   Protection                    src/protection.c, src/protection.h
--     Protection/Text             protection_find, protection_expand, protection_bl_match
--     Protection/Probes           protection_probe_bytes
--     Protection/Slots            slot_for, slot_live, slot_set
--     Protection/Scans            protection_state_t and its operations; Scans/Handle has
--                                 protection_handle, protection_tick and protection_free
--   Spam                          src/spam.c, src/spam.h
--     Spam/Rules                  parse_line, compile_rule, format_rule; Rules/Commands has the loop of
--                                 spam_reload and SPAMFILTER ADD and DEL
--     Spam/Codes                  strip_codes, snippet
--     Spam/Track                  fnv, spam_track
--     Spam/Actions                is_exempt, apply_action, run_filters
--     Spam/Check                  spam_check_text, spam_check_message
--   Tests                         the theorems applied at concrete inputs
-- The folder below each of these holds its proofs.
--
-- How the parts meet: a line is cut and read by irc_parse_line, and every line out is built by
-- irc_build, which escapes what a user sent. Messages that were delivered go to history_add under a
-- key of history_key_channel or history_key_dm. A WebSocket client's lines come out of
-- ws_decode_frame and go in by ws_encode_frame. spam_check_message looks at a message before it is
-- delivered: its rules are read by parse_line with irc_parse_duration, and ending a client goes through
-- client_mark_quit. The scanner's exemptions are address masks of Proto/Address. Replies go out through
-- client_send, which adds the time tag and the CRLF.
--
-- Bounds and fuel: irc_glob_match runs on a fuel above (rows * columns * rows), for one more row than
-- the pattern has bytes and one more column than the text, and on a text without a literal star the
-- fuel is never used up. A ban mask may nest `f:` masks: channel_mask_hit runs on one more round than
-- the mask has bytes, and every nested mask is shorter. The buffers of
-- client_send grow by doubling on as many rounds as bytes are needed, `%d` prints on one round more than
-- the number, since a round takes a digit off, and `%x` of 16 bits on five. Every other loop is structural. Buffer sizes
-- are arguments, or the source's constants.
--
-- Memory: the answers of malloc, calloc and realloc are Boolean arguments. What is freed is not
-- modelled. A uthash table is an association list in the order of insertion. An object that the source
-- changes through a pointer has a number for its pointer; a write replaces the object of that number.
--
-- Parameters: inet_pton and inet_ntop, regcomp and regexec, the clock, sockets and the text of the time.
-- What a component asks of another that is not modelled (bans, notices, sent bytes) is a list of effects.
--
-- Not modelled: sockets, TLS, threads, files, configuration and the vendored libraries, which are I/O,
-- glue or other projects' code; the commands, but for SPAMFILTER ADD, the accounts, SCRAM, the server's
-- delivery and the links between servers.
pub mod Base
pub mod Channel
pub mod Client
pub mod Cstring
pub mod History
pub mod Protection
pub mod Proto
pub mod Spam
pub mod Tests
pub mod Ws
