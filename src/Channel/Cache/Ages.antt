-- ===== src/Channel/Cache/Ages.antt =====
-- How old a member's cache is: the changes of the lists since it was written.
use sekur_ircd.Base.{
  both, ==→eq, ℕ, suc, ◌+◌, ◌%◌, ◌^◌, ◌≤◌, ◌<◌, ◌≡◌, refl, sym, ap, ◌∙◌, inl, inr, Bool, true,
  false, not, ◌||◌, Option, some, ◌==◌, Bytes, Bool-cases, arith,
}
use sekur_ircd.Channel.Masklist.{Masklist}
use sekur_ircd.Channel.Bans.{Extra, Identity}
use sekur_ircd.Channel.Cache.{identity_hash, lists_gen_of, cache_hit, remember}
use sekur_ircd.Channel.Cache.Lists.{Sound, Told, Step}
use sekur_ircd.Channel.Cache.Room.{Room, verdicts, Identities, NoClash}

either_dynamic : (a b : Bool) → (a || b) ≡ false → (a ≡ false) × (b ≡ false)
either_dynamic true b h = absurd (ground (arith, h))
either_dynamic false b h = (refl, h)

module _ (Allowed : Bytes → Type 0) (Has : Identities) where
  -- The cache holds the verdicts that the present lists give each identity with its hash.
  abbrev pub Fresh : Room → Type 0
  Fresh r =
      (y : Option Extra) (other : Identity)
      → Has y other
      → identity_hash y other ≡ r.cache.ident_hash
      → verdicts y other r.bans.masks r.exceptions.masks ≡ some (r.cache.banned, r.cache.quieted)

  -- The lists were changed `age` times since the cache was written, of `n` events.
  pub record Aged (n : ℕ) (r : Room) : Type 0 where
    pub age : ℕ
    pub young : age ≤ n
    pub counted : (r.cache.lists_gen + age) % 2 ^ 32 ≡ (r.bans.gen + r.exceptions.gen) % 2 ^ 32
    pub fresh : age ≡ 0 → Fresh r

  pub record Right (n : ℕ) (r : Room) : Type 0 where
    pub bans_sound : Sound Allowed r.bans
    pub exceptions_sound : Sound Allowed r.exceptions
    pub aged : r.cache.valid ≡ true → Aged n r

  Aged-bans :
      (n : ℕ) (r : Room) (after : Masklist)
      → Told r.bans after
      → Aged n r
      → Aged (suc n) (record r { bans = after })
  Aged-bans n r after (inl (m, g, d)) a = record {
    age = a.age;
    young = omega (arith, a.young);
    counted = a.counted ∙ ap (λ k. (k + r.exceptions.gen) % 2 ^ 32) (sym g);
    fresh = λ z y other has e.
        ap (λ ms. verdicts y other ms r.exceptions.masks) m ∙ a.fresh z y other has e;
  }
  Aged-bans n r after (inr g) a = record {
    age = suc a.age;
    young = omega (arith, a.young);
    counted = omega (arith, a.counted, g);
    fresh = λ z. absurd (omega (arith, z));
  }

  Aged-exceptions :
      (n : ℕ) (r : Room) (after : Masklist)
      → Told r.exceptions after
      → Aged n r
      → Aged (suc n) (record r { exceptions = after })
  Aged-exceptions n r after (inl (m, g, d)) a = record {
    age = a.age;
    young = omega (arith, a.young);
    counted = a.counted ∙ ap (λ k. (r.bans.gen + k) % 2 ^ 32) (sym g);
    fresh =
        λ z y other has e. ap (λ ms. verdicts y other r.bans.masks ms) m ∙ a.fresh z y other has e;
  }
  Aged-exceptions n r after (inr g) a = record {
    age = suc a.age;
    young = omega (arith, a.young);
    counted = omega (arith, a.counted, g);
    fresh = λ z. absurd (omega (arith, z));
  }

  Aged-longer : (n : ℕ) (r : Room) → Aged n r → Aged (suc n) r
  Aged-longer n r a = record {
    age = a.age;
    young = omega (arith, a.young);
    counted = a.counted;
    fresh = a.fresh;
  }

  pub Right-bans :
      (n : ℕ) (r : Room) (after : Masklist)
      → Step Allowed r.bans after
      → Right n r
      → Right (suc n) (record r { bans = after })
  Right-bans n r after (s, t) v = record {
    bans_sound = s;
    exceptions_sound = v.exceptions_sound;
    aged = λ e. Aged-bans n r after t (v.aged e);
  }

  pub Right-exceptions :
      (n : ℕ) (r : Room) (after : Masklist)
      → Step Allowed r.exceptions after
      → Right n r
      → Right (suc n) (record r { exceptions = after })
  Right-exceptions n r after (s, t) v = record {
    bans_sound = v.bans_sound;
    exceptions_sound = s;
    aged = λ e. Aged-exceptions n r after t (v.aged e);
  }

  -- What a hit says: the cache was written since the last change of the lists.
  pub hit-verdicts :
      (n : ℕ) (x : Option Extra) (id : Identity) (r : Room)
      → n < 2 ^ 32
      → Right n r
      → Has x id
      → cache_hit x id r.bans r.exceptions r.cache ≡ true
      → verdicts x id r.bans.masks r.exceptions.masks ≡ some (r.cache.banned, r.cache.quieted)
  unfolding cache_hit
  hit-verdicts n x id r few v has h =
      let a = both (not (r.bans.dynamic || r.exceptions.dynamic)) _ h in
      let b = both r.cache.valid _ a.1 in
      let d = both (r.cache.lists_gen == lists_gen_of r.bans r.exceptions) _ b.1 in
      let gen = ==→eq r.cache.lists_gen (lists_gen_of r.bans r.exceptions) d.0 in
      let hash = ==→eq r.cache.ident_hash (identity_hash x id) d.1 in
      let old = v.aged b.0 in
      old.fresh (omega (arith, old.young, old.counted, gen)) x id has (sym hash)

  pub Right-longer : (n : ℕ) (r : Room) → Right n r → Right (suc n) r
  Right-longer n r v = record {
    bans_sound = v.bans_sound;
    exceptions_sound = v.exceptions_sound;
    aged = λ e. Aged-longer n r (v.aged e);
  }

  pub Right-remember :
      (n : ℕ) (x : Option Extra) (id : Identity) (banned quieted : Bool) (r : Room)
      → NoClash Allowed Has
      → Right n r
      → Has x id
      → verdicts x id r.bans.masks r.exceptions.masks ≡ some (banned, quieted)
      → Right
          (suc n)
          (record r { cache = remember x id r.bans r.exceptions banned quieted r.cache })
  unfolding remember
  Right-remember n x id banned quieted r apart v has e =
      elim (Bool-cases (r.bans.dynamic || r.exceptions.dynamic)) [
        | inl t ↦ rw t (Right-longer n r v)
        | inr f ↦ rw f (written (either_dynamic r.bans.dynamic r.exceptions.dynamic f))
      ]
    where
      new : Room
      new = record r {
        cache = record {
          valid = true;
          lists_gen = lists_gen_of r.bans r.exceptions;
          ident_hash = identity_hash x id;
          banned = banned;
          quieted = quieted;
        };
      }

      written : (r.bans.dynamic ≡ false) × (r.exceptions.dynamic ≡ false) → Right (suc n) new
      written (p, q) = record {
        bans_sound = v.bans_sound;
        exceptions_sound = v.exceptions_sound;
        aged = λ s. record {
          age = 0;
          young = omega arith;
          counted = omega arith;
          fresh = λ z y other has' same.
              apart y other x id r.bans.masks r.exceptions.masks has' has same v.bans_sound.set
                v.exceptions_sound.set (v.bans_sound.still p) (v.exceptions_sound.still q)
              ∙ e;
        };
      }
