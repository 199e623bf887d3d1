-- ===== src/Pin/Table.antt =====
-- A table of failed attempts that evicts nothing: the interface of Pin.antt can be met.
use aika.Common.{ℕ, ◌≡◌, ◌≢◌, refl, inl, none, some, arith, ==_refl, ne→==_false}
use aika.Common.HashMap.{HashMap, get, insert, remove, get-insert, get-remove}
use aika.Model.{IpAddr, ip_Eq}
use aika.Pin.{LruCache}

pub peek-put : (ip : IpAddr) (n : ℕ) (c : HashMap IpAddr ℕ) → get ip (insert ip n c) ≡ some n
peek-put ip n c = ground (arith, get-insert ip ip n c, ==_refl ip)

pub peek-put_other :
    (ip i : IpAddr) (n : ℕ) (c : HashMap IpAddr ℕ) → ip ≢ i → get i (insert ip n c) ≡ get i c
peek-put_other ip i n c h = ground (arith, get-insert ip i n c, ne→==_false ip i h)

pub peek-pop : (ip : IpAddr) (c : HashMap IpAddr ℕ) → get ip (remove ip c) ≡ none
peek-pop ip c = ground (arith, get-remove ip ip c, ==_refl ip)

pub peek-pop_other : (ip i : IpAddr) (c : HashMap IpAddr ℕ) → ip ≢ i → get i (remove ip c) ≡ get i c
peek-pop_other ip i c h = ground (arith, get-remove ip i c, ne→==_false ip i h)

instance abbrev pub table : LruCache (HashMap IpAddr ℕ)
table = record {
  peek = λ ip c. get ip c;
  lookup = λ ip c. (get ip c, c);
  put = λ ip n c. insert ip n c;
  pop = λ ip c. remove ip c;
  lookup-value = λ ip c. refl;
  peek-lookup = λ ip i c. refl;
  peek-put = peek-put;
  peek-put_other = λ ip i n c h. inl (peek-put_other ip i n c h);
  peek-pop = peek-pop;
  peek-pop_other = peek-pop_other;
}
