-- ===== src/Leases/Reaping.antt =====
-- Reaping moves the expired rows to the archive, and no query sees the difference.
use bybitflow.Prelude.{
  ℕ, ◌≤◌, ◌<◌, ◌≡◌, Bool, true, Option, none, some, List, [], ◌∷◌, arith, ltb, leb, any, select,
  Memᴰ, mem-select, any_of_mem, refl, ◌⊎◌, ◌||◌,
}
use bybitflow.Leases.Table.{
  Row, RangeLease, matches, conflicts, blocked, enter, heartbeat, overlaps, archived, archive,
  insert_or_ignore, reap, is_exclusive,
}

-- A query at `t` sees no row that has expired by then.
select_live-any :
    (now : ℕ) (p : Row → Bool) (db : List Row)
    → ((r : Row) → p r ≡ true → now < r.expires_ms)
    → any p (select (λ r. ltb now r.expires_ms) db) ≡ any p db
select_live-any now p [] h = refl
select_live-any now p (r ∷ db) h = ground (arith, select_live-any now p db h, h r)

-- `overlaps` gives at every clock reading from `now` on the same answer after `reap` as before it.
pub overlaps-reap :
    (now at first last : ℕ) (own : Option ℕ) (kv db : List Row)
    → now ≤ at
    → overlaps (reap now kv db).1 first last at own ≡ overlaps db first last at own
unfolding overlaps reap
overlaps-reap now at first last none kv db h = select_live-any now _ db (λ r e. ground arith)
overlaps-reap now at first last (some own) kv db h = select_live-any now _ db (λ r e. ground arith)

archived-archive :
    (k : ℕ) (rs kv : List Row) → archived k kv ≡ true → archived k (archive rs kv) ≡ true
unfolding archive insert_or_ignore
archived-archive k [] kv h = h
archived-archive k (r ∷ rs) kv h = archived-archive k rs (insert_or_ignore r kv) (ground arith)

-- A row of `rs` is found in the archive afterwards.
archive_all : (r : Row) (rs kv : List Row) → Memᴰ r rs → archived r.id (archive rs kv) ≡ true
unfolding archive
archive_all r [] kv m = elim m [ ]
archive_all r (x ∷ rs) kv (Memᴰ.head e) =
    archived-archive r.id rs (insert_or_ignore x kv) (unfold insert_or_ignore in ground arith)
archive_all r (x ∷ rs) kv (Memᴰ.tail m) = archive_all r rs (insert_or_ignore x kv) m

-- After `reap` each row is still in the table if it was live, and in the archive if it was not; and
-- what was archived before stays archived.
pub reap_keeps :
    (now : ℕ) (kv db : List Row) (r : Row)
    → Memᴰ r db
    → (now < r.expires_ms → Memᴰ r (reap now kv db).1)
      × (r.expires_ms ≤ now → archived r.id (reap now kv db).0 ≡ true)
      × ((k : ℕ) → archived k kv ≡ true → archived k (reap now kv db).0 ≡ true)
unfolding reap
reap_keeps now kv db r m = (
  λ h. mem-select (λ x. ltb now x.expires_ms) db m (ground arith),
  λ h. archive_all r _ kv (mem-select (λ x. leb x.expires_ms now) db m (ground arith)),
  λ k e. archived-archive k (select (λ x. leb x.expires_ms now) db) kv e,
)

-- While another lease's row is live and its range shares a point with that of `l`, and one of the
-- two is exclusive, entering `l` raises BlockingIOError and changes neither the object nor the table.
pub enter_blocked :
    (now owner : ℕ) (l : RangeLease) (db : List Row) (r : Row)
    → Memᴰ r db
    → matches now l.first l.last l.id r ≡ true
    → (l.exclusive ≡ true) ⊎ (is_exclusive r.reason ≡ true)
    → enter now owner l db ≡ (blocked, l, db)
unfolding enter heartbeat conflicts
enter_blocked now owner l db r m live ex =
    rw
      (any_of_mem (λ x. l.exclusive || is_exclusive x.reason) _
        (mem-select (matches now l.first l.last l.id) db m live) (ground arith))
      refl
