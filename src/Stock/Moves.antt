-- ===== src/Stock/Moves.antt =====
-- How far a transfer or a count (services/stock_transfer_service.py, stock_count_service.py) moves
-- the quantities of every row of the stock.
use rezorpay_pro.Common.{
  ℤ, zero_ℤ, Bool, true, false, List, [], ◌∷◌, ◌≡◌, refl, ◌+ℤ◌, if◌then◌else◌, Result, ok,
  >>=-eq-ok, ok_injective, int_laws, sum, for_each, subst, ap, ◌∙◌,
}
use rezorpay_pro.Stock.{Stock, LevelKey, InventoryLevel, same_key, same_key_iff}
use rezorpay_pro.Stock.Locate.{Locked}
use rezorpay_pro.Stock.Checks.{level_at, Locked-level_at}

-- The stock on hand moves by `f` and the stock in transit by `g`, at every key; what is reserved and
-- damaged stays.
pub record Moves (f g : LevelKey → ℤ) (s s' : Stock) : Type 0 where
  pub on_hand : (k : LevelKey) → (level_at k s').on_hand ≡ (level_at k s).on_hand +ℤ f k
  pub in_transit : (k : LevelKey) → (level_at k s').in_transit ≡ (level_at k s).in_transit +ℤ g k
  pub reserved : (k : LevelKey) → (level_at k s').reserved ≡ (level_at k s).reserved
  pub damaged : (k : LevelKey) → (level_at k s').damaged ≡ (level_at k s).damaged

-- A quantity at one key.
abbrev pub at : LevelKey → ℤ → LevelKey → ℤ
at key q k = if same_key key k then q else zero_ℤ

abbrev pub still : LevelKey → ℤ
still k = zero_ℤ

pub Moves-none : (s : Stock) → Moves still still s s
Moves-none s = record {
  on_hand = λ k. grind int_laws;
  in_transit = λ k. grind int_laws;
  reserved = λ k. refl;
  damaged = λ k. refl;
}

pub Moves-trans :
    (f g f' g' : LevelKey → ℤ) (s t u : Stock)
    → Moves f g s t
    → Moves f' g' t u
    → Moves (λ k. f k +ℤ f' k) (λ k. g k +ℤ g' k) s u
Moves-trans f g f' g' s t u a b = record {
  on_hand = λ k. grind (int_laws, a.on_hand k, b.on_hand k);
  in_transit = λ k. grind (int_laws, a.in_transit k, b.in_transit k);
  reserved = λ k. b.reserved k ∙ a.reserved k;
  damaged = λ k. b.damaged k ∙ a.damaged k;
}

-- Moves by the same quantities, written otherwise.
pub Moves-as :
    (f g f' g' : LevelKey → ℤ) (s s' : Stock)
    → ((k : LevelKey) → f k ≡ f' k)
    → ((k : LevelKey) → g k ≡ g' k)
    → Moves f g s s'
    → Moves f' g' s s'
Moves-as f g f' g' s s' e e' m = record {
  on_hand = λ k. m.on_hand k ∙ ap (λ (x : ℤ). (level_at k s).on_hand +ℤ x) (e k);
  in_transit = λ k. m.in_transit k ∙ ap (λ (x : ℤ). (level_at k s).in_transit +ℤ x) (e' k);
  reserved = m.reserved;
  damaged = m.damaged;
}

row_moved :
    (c : Bool) (l' l level new : InventoryLevel) (q r : ℤ)
    → (c ≡ true → level ≡ l)
    → l' ≡ (if c then new else l)
    → new ≡ record level { on_hand = level.on_hand +ℤ q; in_transit = level.in_transit +ℤ r }
    → (l'.on_hand ≡ l.on_hand +ℤ (if c then q else zero_ℤ))
      × (l'.in_transit ≡ l.in_transit +ℤ (if c then r else zero_ℤ))
      × (l'.reserved ≡ l.reserved)
      × (l'.damaged ≡ l.damaged)
row_moved true l' l level new q r same e n = rw (e, n, same refl) (refl, refl, refl, refl)
row_moved false l' l level new q r same e n = rw e (grind int_laws, grind int_laws, refl, refl)

-- One row locked and rewritten.
pub row-Moves :
    (key : LevelKey) (level new : InventoryLevel) (q r : ℤ) (s t s' : Stock)
    → Locked key s level t
    → ((k : LevelKey) → level_at k s' ≡ (if same_key key k then new else level_at k t))
    → new ≡ record level { on_hand = level.on_hand +ℤ q; in_transit = level.in_transit +ℤ r }
    → Moves (at key q) (at key r) s s'
row-Moves key level new q r s t s' lock rewrites n =
    let (row, rest) = Locked-level_at key s level t lock in
    let at_key = λ (k : LevelKey).
      row_moved (same_key key k) (level_at k s') (level_at k s) level new q r
        (λ same. row ∙ ap (λ j. level_at j s) ((same_key_iff key k).0 same))
        (rw (← rest k) (rewrites k)) n in
    record {
      on_hand = λ k. (at_key k).0;
      in_transit = λ k. (at_key k).1;
      reserved = λ k. (at_key k).2;
      damaged = λ k. (at_key k).3;
    }

-- The loop over the lines moves what the lines move together.
pub for_each-Moves :
    {A : Type 0} (body : A → Stock → Result Stock) (f g : A → LevelKey → ℤ)
    → ((x : A) (s s' : Stock) → body x s ≡ ok s' → Moves (f x) (g x) s s')
    → (xs : List A) (s s' : Stock) → for_each body xs s ≡ ok s'
    → Moves (λ k. sum (λ x. f x k) xs) (λ k. sum (λ x. g x k) xs) s s'
unfolding for_each sum
for_each-Moves body f g step [] s s' h = subst (Moves still still s) (ok_injective h) (Moves-none s)
for_each-Moves body f g step (x ∷ xs) s s' h =
    let (t, first, rest) = >>=-eq-ok (body x s) (for_each body xs) h in
    Moves-trans (f x) (g x) _ _ s t s' (step x s t first)
      (for_each-Moves body f g step xs t s' rest)
