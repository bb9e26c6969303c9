-- ===== src/History/Keys.antt =====
-- src/history.c: the keys of conversations.
use sekur_ircd.Base.{
  ℕ, ◌-◌, Bool, true, false, [], ◌∷◌, ◌++◌, ltb, ◌==◌, if◌then◌else◌, Bytes, take,
}
use sekur_ircd.Proto.Strings.{irc_casefold}

-- `history_key_is_dm`, and `strcmp(a, b) > 0` on bytes as the DM key compares its accounts
unfoldable pub history_key_is_dm : Bytes → Bool
history_key_is_dm [] = false
history_key_is_dm (c ∷ s) = c == 1

unfoldable pub strcmp_gt : Bytes → Bytes → Bool
strcmp_gt [] b = false
strcmp_gt (x ∷ a) [] = true
strcmp_gt (x ∷ a) (y ∷ b) = if x == y then strcmp_gt a b else ltb y x

unfoldable pub history_key_channel : ℕ → Bytes → Bytes
unfolding irc_casefold
history_key_channel outsz chan = irc_casefold outsz chan

unfoldable pub history_key_dm : ℕ → Bytes → Bytes → Bytes
unfolding irc_casefold strcmp_gt
history_key_dm outsz account_a account_b =
    let a = irc_casefold 72 account_a in
    let b = irc_casefold 72 account_b in
    let (lo, hi) = pair_of a b in take (outsz - 1) (1 ∷ (lo ++ (1 ∷ hi)))
  where
    pair_of : Bytes → Bytes → Bytes × Bytes
    pair_of a b = if strcmp_gt a b then (b, a) else (a, b)
