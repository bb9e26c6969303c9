-- ===== src/Channel/Cache/Runs.antt =====
-- `channel_ban_state` after any run of changes and questions.
use sekur_ircd.Base.{
  ℕ, suc, ◌+◌, ◌^◌, ◌<◌, ◌≡◌, refl, sym, subst, inl, inr, List, [], ◌∷◌, Option, some, Bytes,
  Bool-cases, Option-cases, All, length, arith,
}
use sekur_ircd.Channel.Bans.{Extra, Identity, channel_is_banned, channel_is_quieted}
use sekur_ircd.Channel.Cache.{cache_hit, channel_ban_state}
use sekur_ircd.Channel.Cache.Lists.{Sound, masklist_add-Step, masklist_del-Step}
use sekur_ircd.Channel.Cache.Room.{
  Room, Event, ban, unban, except, unexcept, ask, step, run, verdicts, asked, Identities, NoClash,
  Proper, empty_list, new_room,
}
use sekur_ircd.Channel.Cache.Ages.{
  Right, Right-bans, Right-exceptions, hit-verdicts, Right-longer, Right-remember,
}

module _ (Allowed : Bytes → Type 0) (Has : Identities) where
  ask_lem :
      (n : ℕ) (x : Option Extra) (id : Identity) (r : Room)
      → n < 2 ^ 32
      → NoClash Allowed Has
      → Right Allowed Has n r
      → Has x id
      → (asked r x id ≡ verdicts x id r.bans.masks r.exceptions.masks)
        × Right Allowed Has (suc n) (step r (ask x id))
  unfolding channel_ban_state
  ask_lem n x id r few apart v has =
      elim (Bool-cases (cache_hit x id r.bans r.exceptions r.cache)) [
        | inl t ↦
            rw (t, channel_ban_state)
              (sym (hit-verdicts Allowed Has n x id r few v has t), Right-longer Allowed Has n r v)
        | inr f ↦ elim (Option-cases (channel_is_banned x id r.bans.masks r.exceptions.masks)) [
          | inl e ↦ rw (f, e, channel_ban_state) (refl, Right-longer Allowed Has n r v)
          | inr (banned, e) ↦ elim (Option-cases (channel_is_quieted x id r.bans.masks)) [
            | inl g ↦ rw (f, e, g, channel_ban_state) (refl, Right-longer Allowed Has n r v)
            | inr (quieted, g) ↦
                let both_said : verdicts x id r.bans.masks r.exceptions.masks
                    ≡ some (banned, quieted) =
                  rw (e, g) refl in
                rw (f, e, g, channel_ban_state)
                  (refl, Right-remember Allowed Has n x id banned quieted r apart v has both_said)
          ]
        ]
      ]

  step-Right :
      (n : ℕ) (r : Room) (e : Event)
      → n < 2 ^ 32
      → NoClash Allowed Has
      → Right Allowed Has n r
      → Proper Allowed Has e
      → Right Allowed Has (suc n) (step r e)
  step-Right n r (ban mask now ok) few apart v (p, l) =
      Right-bans Allowed Has n r _ (masklist_add-Step r.bans mask now ok v.bans_sound p l) v
  step-Right n r (unban mask) few apart v p =
      Right-bans Allowed Has n r _ (masklist_del-Step r.bans mask v.bans_sound) v
  step-Right n r (except mask now ok) few apart v (p, l) =
      Right-exceptions Allowed Has n r _
        (masklist_add-Step r.exceptions mask now ok v.exceptions_sound p l) v
  step-Right n r (unexcept mask) few apart v p =
      Right-exceptions Allowed Has n r _ (masklist_del-Step r.exceptions mask v.exceptions_sound) v
  step-Right n r (ask x id) few apart v p = (ask_lem n x id r few apart v p).1

  run-Right :
      (n : ℕ) (r : Room) (es : List Event)
      → n + length es < 2 ^ 32
      → NoClash Allowed Has
      → Right Allowed Has n r
      → All (Proper Allowed Has) es
      → Right Allowed Has (n + length es) (run r es)
  run-Right n r [] few apart v p =
      subst (λ k. Right Allowed Has k r) {x = n} {y = n + 0} (omega arith) v
  run-Right n r (e ∷ es) few apart v (p, ps) =
      subst (λ k. Right Allowed Has k (run (step r e) es)) {x = suc n + length es}
        {y = n + suc (length es)} (omega arith)
        (run-Right (suc n) (step r e) es (omega arith) apart
          (step-Right n r e (omega arith) apart v p) ps)

  new-Sound : Sound Allowed empty_list
  new-Sound = record { unallocated = λ h. refl; set = tt; still = λ h. tt }

  new-Right : Right Allowed Has 0 new_room
  new-Right = record {
    bans_sound = new-Sound;
    exceptions_sound = new-Sound;
    aged = λ e. absurd (ground (arith, e));
  }

  -- In a new channel, after fewer than 2 ^ 32 events, which are masks of at most 255 bytes that
  -- `Allowed` admits set as bans or as exceptions, whatever the allocator answers, masks removed, and
  -- the verdicts asked for with identities of `Has`, in any order: for an identity of `Has`,
  -- `channel_ban_state` answers what `channel_is_banned` and `channel_is_quieted` say of the present
  -- lists. Two of these identities with the same hash must have the same verdicts on all lists of
  -- admitted masks without a `~j:` mask.
  pub channel_ban_state-verdicts :
      (es : List Event) (x : Option Extra) (id : Identity)
      → NoClash Allowed Has
      → length es < 2 ^ 32
      → All (Proper Allowed Has) es
      → Has x id
      → asked (run new_room es) x id
        ≡ verdicts x id (run new_room es).bans.masks (run new_room es).exceptions.masks
  channel_ban_state-verdicts es x id apart few p has =
      (ask_lem (length es) x id (run new_room es) few apart
        (subst (λ k. Right Allowed Has k (run new_room es)) {x = 0 + length es} {y = length es}
          (omega arith) (run-Right 0 new_room es (omega (arith, few)) apart new-Right p))
        has).0
