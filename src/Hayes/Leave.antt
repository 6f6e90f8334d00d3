-- ===== src/Hayes/Leave.antt =====
-- Leaving data mode: what `h_handler` of driver/hayes.c makes of a whole escape sequence, and of one
-- that breaks off.
use esp_slip_router.Prelude.{
  ℕ, zero, suc, ◌+◌, ◌-◌, ◌%◌, ◌≤◌, ◌<◌, ◌≡◌, refl, sym, ◌∙◌, ap, true, false, Option, none, some,
  ◌&&◌, subst, List, [], ◌∷◌, ◌++◌, arith, replicate, ◌==◌, ==_iff, append-nil,
}
use esp_slip_router.Hayes.Types.{Modem, Env, reg_esc}
use esp_slip_router.Hayes.Output.{okay, h_result}
use esp_slip_router.Hayes.Feed.{feed, prepend}
use esp_slip_router.Hayes.Escape.{
  feed-[], feed-∷, write_to_pbuf-hold, write_to_pbuf-leave, write_to_pbuf-replay,
}

prepend-[] : (o : Option (List ℕ × Modem)) → prepend [] o ≡ o
prepend-[] none = refl
prepend-[] (some (sent, m)) = refl

self : (n : ℕ) → (n == n) ≡ true
self n = (==_iff n n).1 refl

module _ (env : Env) where
  -- data mode holds back one more escape character
  feed-hold :
      (n : ℕ) (cs : List ℕ) (m : Modem)
      → m.online ≡ true
      → m.n_escs ≡ n
      → (m.in_esc && n == 2) ≡ false
      → feed env (reg_esc m ∷ cs) m ≡ feed env cs (record m { in_esc = true; n_escs = (n + 1) % 4 })
  feed-hold n cs m on e t =
      feed-∷ env (reg_esc m) cs m (
        write_to_pbuf-hold env (reg_esc m) m on (self (reg_esc m))
          (subst (λ k. (m.in_esc && k == 2) ≡ false) (sym e) t))
      ∙ prepend-[] _
      ∙ ap (λ k. feed env cs (record m { in_esc = true; n_escs = (k + 1) % 4 })) e

  feed-replay :
      (c : ℕ) (m : Modem)
      → m.online ≡ true
      → m.in_esc ≡ true
      → (c == reg_esc m) ≡ false
      → feed env (c ∷ []) m
        ≡ some (replicate m.n_escs (reg_esc m) ++ c ∷ [], record m { in_esc = false; n_escs = 3 })
  feed-replay c m on e d =
      feed-∷ env c [] m (write_to_pbuf-replay env c m on e d)
      ∙ ap (prepend _) (feed-[] env (record m { in_esc = false; n_escs = 3 }))
      ∙ ap (λ s. some (s, record m { in_esc = false; n_escs = 3 })) (append-nil _)

  -- In data mode with nothing counted, three escape characters in a row leave data mode with the
  -- result OK, and the SLIP interface gets nothing.
  pub feed-leaves :
      (m : Modem)
      → m.online ≡ true
      → m.in_esc ≡ false
      → m.n_escs ≡ 0
      → feed env (replicate 3 (reg_esc m)) m
        ≡ some ([], h_result env okay (record m { in_esc = false; n_escs = 0; online = false }))
  feed-leaves m on e n =
      feed-hold 0 _ m on n (rw e refl)
      ∙ feed-hold 1 _ (record m { in_esc = true; n_escs = 1 }) on refl refl
      ∙ feed-∷ env (reg_esc m) [] (record m { in_esc = true; n_escs = 2 })
          (write_to_pbuf-leave env (reg_esc m) (record m { in_esc = true; n_escs = 2 }) on
            (self (reg_esc m)) refl refl)
      ∙ prepend-[] _
      ∙ feed-[] env _

  -- In data mode with nothing counted, one or two escape characters and then another character all
  -- reach the SLIP interface in order, and the counter is left at 3.
  pub feed-interrupted :
      (k c : ℕ) (m : Modem)
      → 0 < k
      → k ≤ 2
      → (c == reg_esc m) ≡ false
      → m.online ≡ true
      → m.in_esc ≡ false
      → m.n_escs ≡ 0
      → feed env (replicate k (reg_esc m) ++ c ∷ []) m
        ≡ some (replicate k (reg_esc m) ++ c ∷ [], record m { in_esc = false; n_escs = 3 })
  feed-interrupted zero c m pos lt d on e n = ground arith
  feed-interrupted (suc zero) c m pos lt d on e n =
      feed-hold 0 _ m on n (rw e refl)
      ∙ feed-replay c (record m { in_esc = true; n_escs = 1 }) on refl d
  feed-interrupted (suc (suc zero)) c m pos lt d on e n =
      feed-hold 0 _ m on n (rw e refl)
      ∙ feed-hold 1 _ (record m { in_esc = true; n_escs = 1 }) on refl refl
      ∙ feed-replay c (record m { in_esc = true; n_escs = 2 }) on refl d
  feed-interrupted (suc (suc (suc k))) c m pos lt d on e n = ground arith

  -- In data mode with the counter left at 3, one to three escape characters and then another character
  -- reach the SLIP interface with one escape character missing, and data mode goes on.
  pub feed-loses :
      (k c : ℕ) (m : Modem)
      → 0 < k
      → k ≤ 3
      → (c == reg_esc m) ≡ false
      → m.online ≡ true
      → m.in_esc ≡ false
      → m.n_escs ≡ 3
      → feed env (replicate k (reg_esc m) ++ c ∷ []) m
        ≡ some (replicate (k - 1) (reg_esc m) ++ c ∷ [], record m { in_esc = false; n_escs = 3 })
  feed-loses zero c m pos lt d on e n = ground arith
  feed-loses (suc zero) c m pos lt d on e n =
      feed-hold 3 _ m on n (rw e refl)
      ∙ feed-replay c (record m { in_esc = true; n_escs = 0 }) on refl d
  feed-loses (suc (suc zero)) c m pos lt d on e n =
      feed-hold 3 _ m on n (rw e refl)
      ∙ feed-hold 0 _ (record m { in_esc = true; n_escs = 0 }) on refl refl
      ∙ feed-replay c (record m { in_esc = true; n_escs = 1 }) on refl d
  feed-loses (suc (suc (suc zero))) c m pos lt d on e n =
      feed-hold 3 _ m on n (rw e refl)
      ∙ feed-hold 0 _ (record m { in_esc = true; n_escs = 0 }) on refl refl
      ∙ feed-hold 1 _ (record m { in_esc = true; n_escs = 1 }) on refl refl
      ∙ feed-replay c (record m { in_esc = true; n_escs = 2 }) on refl d
  feed-loses (suc (suc (suc (suc k)))) c m pos lt d on e n = ground arith
