-- ===== src/Launcher/Load/Query.antt =====
-- The query to the database fits its buffer.
use nizam.Prelude.{
  ℕ, ◌+◌, ◌≤◌, ◌<◌, ◌≡◌, ap, [], ◌∷◌, ◌++◌, arith, length, length-append, take_of_length-le, sym,
  ◌∙◌, append-nil, append_assoc,
}
use nizam.Text.{Bytes, codes}
use nizam.Launcher.Load.{
  strncat, Columns, sql_size, base_sql, add_where, deleted_sql, order_sql, query_sql,
}

strncat_short :
    (size : ℕ) (buf s : Bytes) → length buf + length s < size → strncat size buf s ≡ buf ++ s
unfolding strncat
strncat_short size buf s h = ap (λ t. buf ++ t) (take_of_length-le _ s (omega arith))

base_sql_short : (c : Columns) → length (base_sql c) ≤ 146
unfolding base_sql
base_sql_short c = ground arith

deleted_sql_short : (c : Columns) → length (deleted_sql c) ≤ 26
unfolding deleted_sql
deleted_sql_short c = ground arith

order_sql_short : (c : Columns) → length (order_sql c) ≤ 52
unfolding order_sql
order_sql_short c = ground arith

-- The text without a buffer.
pub where_sql : Bytes → Bytes
where_sql [] = []
where_sql (c ∷ tail) = codes " AND " ++ (c ∷ tail)

add_where_short :
    (tail sql : Bytes)
    → length sql + length tail + 5 < sql_size
    → add_where tail sql ≡ sql ++ where_sql tail
unfolding add_where where_sql
add_where_short [] sql h = sym (append-nil sql)
add_where_short (c ∷ tail) sql h = rw (strncat_short sql_size sql (codes " AND ") (omega arith)) (
    strncat_short sql_size (sql ++ codes " AND ") (c ∷ tail)
      (omega (arith, length-append sql (codes " AND ")))
    ∙ append_assoc sql (codes " AND ") (c ∷ tail))

length-where_sql : (tail : Bytes) → length (where_sql tail) ≤ length tail + 5
unfolding where_sql
length-where_sql [] = omega arith
length-where_sql (c ∷ tail) = omega (arith, length-append (codes " AND ") (c ∷ tail))

-- The query is never cut: with a condition of at most 500 bytes (the program's has 13) the text
-- in the buffer is the selection, the condition, the filter and the order, each in full, whatever
-- columns the table has.
pub query_sql_whole :
    (c : Columns) (tail : Bytes)
    → length tail ≤ 500
    → query_sql c tail ≡ ((base_sql c ++ where_sql tail) ++ deleted_sql c) ++ order_sql c
unfolding query_sql
query_sql_whole c tail h =
    let start = base_sql c ++ where_sql tail in
    let short : length start ≤ 651 = omega (
      arith,
      length-append (base_sql c) (where_sql tail),
      base_sql_short c,
      length-where_sql tail,
    ) in
    let with_filter : length (start ++ deleted_sql c) ≤ 677 =
      omega (arith, length-append start (deleted_sql c), deleted_sql_short c, short) in
    rw (
      take_of_length-le 767 (base_sql c) (omega (arith, base_sql_short c)),
      add_where_short tail (base_sql c) (omega (arith, base_sql_short c)),
      strncat_short sql_size start (deleted_sql c) (omega (arith, deleted_sql_short c, short)),
      strncat_short sql_size (start ++ deleted_sql c) (order_sql c)
          (omega (arith, order_sql_short c, with_filter)),
    )
