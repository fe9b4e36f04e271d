-- ===== src/Broker/Submit/Frames.antt =====
-- What each exit of `submit_order` does to the books.
use dse_auto.Common.{ℕ, ◌≡◌, ◌∙◌, String}
use dse_auto.Store.{Order, Books, PaperAccount, Session, put_order, submitted, rejected}
use dse_auto.Env.{Env}
use dse_auto.Audit.Frame.{append_audit-books}
use dse_auto.Events.Frame.{emit-books}
use dse_auto.Broker.{PaperBroker}
use dse_auto.Broker.Submit.{
  set_status, skip_order, mark_submitted, no_fill, reject_order, fill_order, book_fill,
}

-- The books with one order written.
abbrev pub with_order : Order → Books → Books
with_order o b = record b { orders = put_order o b.orders }

pub skip_order-books :
    (env : Env) (now : ℕ) (b : PaperBroker) (o : Order) (s : Session)
    → (skip_order env now b o s).1.work.books ≡ with_order (set_status now submitted o) s.work.books
unfolding skip_order
skip_order-books env now b o s = append_audit-books env now _ _

pub mark_submitted-books :
    (now : ℕ) (b : PaperBroker) (o : Order) (s : Session)
    → (mark_submitted now b o s).1.work.books ≡ with_order (set_status now submitted o) s.work.books
unfolding mark_submitted
mark_submitted-books now b o s = emit-books now _ _

pub no_fill-books :
    (env : Env) (now : ℕ) (b : PaperBroker) (o : Order) (s : Session)
    → (no_fill env now b o s).1.work.books ≡ s.work.books
unfolding no_fill
no_fill-books env now b o s = append_audit-books env now _ _

pub reject_order-books :
    (env : Env) (now : ℕ) (o : Order) (reason key_end : String) (s : Session)
    → (reject_order env now o reason key_end s).1.work.books
      ≡ with_order (set_status now rejected o) s.work.books
unfolding reject_order
reject_order-books env now o reason key_end s = append_audit-books env now _ _ ∙ emit-books now _ _

pub fill_order-books :
    (env : Env) (now : ℕ) (b : PaperBroker) (o : Order) (a : PaperAccount) (q p f : ℕ) (s : Session)
    → (fill_order env now b o a q p f s).1.work.books ≡ (book_fill now b o a q p f s).work.books
unfolding fill_order
fill_order-books env now b o a q p f s = append_audit-books env now _ _ ∙ emit-books now _ _
