-- ===== src/Socket/Samples.antt =====
-- A socket of type REP to which given texts are sent, whatever address it is bound to.
use qos_planner.Common.{◌≡◌, refl, ap, List, [], ◌∷◌, Bool, true, false, Option, none, some, Str}
use qos_planner.Socket.{Zmq, RepLaws, Received, waits, throws, got}

-- Whether it has to send next, and the texts that are still to come.
abbrev pub Rep : Type 0
Rep = Bool × List Str

abbrev receive : Rep → Received Rep
receive (true, texts) = throws
receive (false, []) = waits
receive (false, text ∷ texts) = got text (true, texts)

abbrev send_back : Rep → Option Rep
send_back (true, texts) = some (false, texts)
send_back (false, texts) = none

abbrev pub rep : List Str → Zmq
rep texts = record {
  Socket = Rep;
  bind = λ address. some (false, texts);
  s_recv = receive;
  s_send = λ socket reply. send_back socket;
}

abbrev pub rep_laws : (texts : List Str) → RepLaws (rep texts)
rep_laws texts = record {
  Ready = λ socket left. socket ≡ (false, left);
  Busy = λ socket left. socket ≡ (true, left);
  recv-waits = λ socket ready. ap receive ready;
  recv-got = λ socket text left ready. ((true, left), ap receive ready, refl);
  recv-throws = λ socket left busy. ap receive busy;
  send-Ready = λ socket left reply busy. ((false, left), ap send_back busy, refl);
}
