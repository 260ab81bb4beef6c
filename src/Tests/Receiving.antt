-- ===== src/Tests/Receiving.antt =====
-- A receipt for one of two local messages.
use inkmail.Base.{◌≤◌, List, [], ◌∷◌, codes, arith, length, keep, same}
use inkmail.Letters.{Letter, Receipt, receipt_matches, mark_delivered_from_receipt}
use inkmail.Letters.Receipts.{Marked, mark_delivered_from_receipt-Marked}

abbrev sent : Letter
sent = record {
  id = codes "one";
  sender_namespace = codes "alice";
  sender_public_key = codes "ka";
  recipient_namespace = codes "bob";
  recipient_public_key = codes "kb";
  subject = codes "hello";
  body = codes "text";
  created_at = 5;
  signature = [];
  direction = codes "queued";
  status = codes "pending";
  folder = codes "inbox";
  folder_updated_at = 6;
  stored_at = 6;
}

abbrev letters : List Letter
letters = sent ∷ record sent { id = codes "two" } ∷ []

abbrev receipt : Receipt
receipt = record {
  message_id = codes "two";
  local_namespace = codes "alice";
  local_public_key = codes "ka";
  recipient_namespace = codes "bob";
  recipient_public_key = codes "kb";
}

one_match : length (keep (receipt_matches receipt) letters) ≤ 1
unfolding same
one_match = omega arith

mark_delivered_from_receipt-Marked_example :
    Marked receipt
      (mark_delivered_from_receipt receipt letters).0
      letters
      (mark_delivered_from_receipt receipt letters).1
mark_delivered_from_receipt-Marked_example =
    mark_delivered_from_receipt-Marked receipt letters one_match
