-- ===== src/Execution/Scanner/Chain.antt =====
-- The order that src/execution.rs keeps among the statements that it has cut out and the one that
-- is pending.
use dbotter.Prelude.{ℕ, ◌≤◌, ◌<◌, ◌≡◌, Bool, List, [], ◌∷◌, ◌++◌, Option, none, some, arith}
use mathlib.Core.List.{Memᴰ}
use dbotter.Text.{Text, str_len}
use dbotter.Execution.Scanner.{
  Cursor, index, PendingMysqlStatement, MysqlStatement, MysqlScan, unwrap_or, finish,
  append_statement,
}
use dbotter.Execution.Scanner.Cursors.{whole}

-- A byte offset of the text where a cursor can stand.
pub record IsCut (text : Text) (i : ℕ) : Type 0 where
  pub cursor : Cursor
  pub in_text : whole cursor ≡ text
  pub offset : index cursor ≡ i

-- The statements lie between two offsets in their order, none is empty, none overlaps the next,
-- and each begins and ends between characters.
abbrev pub Chain : Text → ℕ → List MysqlStatement → ℕ → Type 0
Chain text lo [] hi = lo ≤ hi
Chain text lo (x ∷ xs) hi =
    (lo ≤ x.start)
    × (x.start < x.stop)
    × IsCut text x.start
    × IsCut text x.stop
    × Chain text x.stop xs hi

pub Chain-weaken :
    (text : Text) (lo hi hi' : ℕ) (xs : List MysqlStatement)
    → hi ≤ hi'
    → Chain text lo xs hi
    → Chain text lo xs hi'
Chain-weaken text lo hi hi' [] h c = omega arith
Chain-weaken text lo hi hi' (x ∷ xs) h (a, b, p, q, c) =
    (a, b, p, q, Chain-weaken text x.stop hi hi' xs h c)

pub Chain-append :
    (text : Text) (lo : ℕ) (xs : List MysqlStatement) (x : MysqlStatement)
    → Chain text lo xs x.start
    → x.start < x.stop
    → IsCut text x.start
    → IsCut text x.stop
    → Chain text lo (xs ++ x ∷ []) x.stop
Chain-append text lo [] x c h p q = (c, h, p, q, omega arith)
Chain-append text lo (y ∷ xs) x (a, b, p', q', c) h p q =
    (a, b, p', q', Chain-append text y.stop xs x c h p q)

-- What is pending began behind the last statement, and its executable part ends at a cut.
abbrev pub Waits : Text → List MysqlStatement → ℕ → Option ℕ → ℕ → Type 0
Waits text statements i none stop = Chain text 0 statements i
Waits text statements i (some start) stop =
    Chain text 0 statements start × IsCut text start × (start < stop) × (stop ≤ i) × IsCut text stop

abbrev pub Pends : Text → List MysqlStatement → ℕ → PendingMysqlStatement → Type 0
Pends text statements i p = Waits text statements i p.first_executable p.last_executable_end

-- What the scan promises of its result.
abbrev pub ChainUpTo : Text → MysqlScan → Type 0
ChainUpTo text scan = elim scan.issue [
  | none ↦ Chain text 0 scan.statements (str_len text)
  | some issue ↦
      Chain text 0 scan.statements issue.statement_start × (issue.statement_start ≤ str_len text)
]

module _ (text : Text) (statements : List MysqlStatement) where
  pub Waits-later :
      (i j : ℕ) (first : Option ℕ) (stop : ℕ)
      → i ≤ j
      → Waits text statements i first stop
      → Waits text statements j first stop
  Waits-later i j none stop h w = Chain-weaken text 0 i j statements h w
  Waits-later i j (some start) stop h (c, p, a, b, q) = (c, p, a, omega arith, q)

  pub mark-Waits :
      (i j : ℕ) (first : Option ℕ) (stop : ℕ)
      → i < j
      → IsCut text i
      → IsCut text j
      → Waits text statements i first stop
      → Waits text statements j (some (unwrap_or first i)) j
  mark-Waits i j none stop h p q w = (w, p, h, omega arith, q)
  mark-Waits i j (some start) stop h p q (c, p', a, b, q') = (c, p', omega arith, omega arith, q)

  -- The text that a scan can still cut out begins behind the statements.
  pub Waits-start :
      (i : ℕ) (first : Option ℕ) (stop : ℕ)
      → Waits text statements i first stop
      → Chain text 0 statements (unwrap_or first i) × (unwrap_or first i ≤ i)
  Waits-start i none stop w = (w, omega arith)
  Waits-start i (some start) stop (c, p, a, b, q) = (c, omega arith)

  pub end-Chain :
      (i : ℕ) (first : Option ℕ) (a : Bool) (b : ℕ)
      → Waits text statements i first b
      → let p =
          finish
            (record { first_executable = first; last_executable_end = b; is_ambiguous = a })
            b in
        Chain text 0 (append_statement statements p.0) i
  unfolding finish
  end-Chain i none a b w = w
  end-Chain i (some start) a b (c, p, x, y, q) =
      Chain-weaken text 0 b i (statements ++ _ ∷ []) y (Chain-append text 0 statements _ c x p q)

Chain-le : (text : Text) (lo hi : ℕ) (xs : List MysqlStatement) → Chain text lo xs hi → lo ≤ hi
Chain-le text lo hi [] c = c
Chain-le text lo hi (x ∷ xs) (a, b, p, q, c) = omega (arith, Chain-le text x.stop hi xs c)

-- What the chain says of one of its statements.
pub Chain-mem :
    (text : Text) (lo hi : ℕ) (xs : List MysqlStatement) (x : MysqlStatement)
    → Chain text lo xs hi
    → Memᴰ x xs
    → (lo ≤ x.start) × (x.start < x.stop) × (x.stop ≤ hi) × IsCut text x.start × IsCut text x.stop
Chain-mem text lo hi [] x c m = elim m [ ]
Chain-mem text lo hi (y ∷ xs) x (a, b, p, q, c) (Memᴰ.head e) =
    let end = Chain-le text y.stop hi xs c in rw e (a, b, end, p, q)
Chain-mem text lo hi (y ∷ xs) x (a, b, p, q, c) (Memᴰ.tail m) =
    let (a', b', c', p', q') = Chain-mem text y.stop hi xs x c m in (omega arith, b', c', p', q')
