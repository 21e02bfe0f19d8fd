-- ===== src/Lib.antt =====
-- A TCP implementation in user space, in layers. A ByteStream is a bounded queue of bytes between a
-- Writer and a Reader. The Reassembler takes substrings of a stream, each with its index, in any
-- order, and writes them to a ByteStream as soon as they continue it. Wrap32 numbers the bytes of a
-- stream modulo 2^32 from a zero point. The TCPReceiver takes the segments of a peer, finds the
-- index of each payload with Wrap32, hands it to the Reassembler, and says which number it wants
-- next and how much room the stream has. The TCPSender reads a ByteStream, cuts it into segments
-- that fit the window of the peer, keeps them until they are acknowledged, and sends the oldest one
-- again when its timer runs out. A TCPPeer is one end of a connection: a sender, a receiver with
-- its Reassembler, and a stream for each direction. A TCP segment travels as bytes, which a
-- Serializer writes and a Parser reads, in an IPv4 datagram with an Internet checksum, and that in
-- an Ethernet frame. A NetworkInterface finds the Ethernet address of the next hop with ARP
-- messages, while the datagram waits. A Router takes a datagram from each of its interfaces and
-- sends it to the interface of the entry of its table whose prefix matches the destination and is
-- the longest. The adapters carry the segments of a connection over a TUN device, in datagrams, or
-- over a TAP device, in frames. An EventLoop calls the callbacks of the rules that are interested
-- and whose file descriptors are ready. The bidirectional copy takes bytes from a descriptor to a
-- socket and back with four such rules. A TCPMinnowSocket runs a TCPPeer with four rules of its
-- own, between an adapter and a socket that it shares with its owner. In the end-to-end program it
-- sends its frames to a Router in a network thread, which passes them on to the Internet and back.
--
-- Files, with the code that each is about:
--   Base          no code: names of the libraries, Boolean tests, lists, uint64_t and uint32_t with
--                 their wrap-around, and the outcomes of a call
--   Stream        src/byte_stream.hh, src/byte_stream.cc, src/byte_stream_helpers.cc
--     Pipe        the bounded pipe, the specification of the byte stream
--     Invariant   when a stream is valid
--     Reading     the loop of read
--     Refine      the byte stream and the pipe
--   Reassembler   src/reassembler.hh, src/reassembler.cc
--     Layout      how the nodes of the list lie, and which bytes they hold
--     Visit, Sweep, Settle, Flush   the parts of insert, one each
--     Insert      the parts together
--     Correct     insert as its callers see it
--     Counting    how many bytes are pending
--     Closing     when insert closes the stream
--   Wrap          src/wrapping_integers.hh, src/wrapping_integers.cc
--   Message       util/tcp_sender_message.hh, util/tcp_receiver_message.hh, util/tcp_config.hh,
--                 util/udinfo.hh and util/tcp_segment.hh, the members only
--   Receiver      src/tcp_receiver.hh, src/tcp_receiver.cc
--     Delivery    receive, and the receiver, its Reassembler and its stream as a system of steps
--     Replies     send
--   Sender        src/tcp_sender.hh, src/tcp_sender.cc
--     Timer       RTOTimer
--     Round       a round of the loop of push
--     Pushing     push
--     Acks        receive
--     Timing      tick
--     Backoff     tick, called again and again
--     Kept        what receive does not change
--   Peer          util/tcp_peer.hh, with the members of util/tcp_segment.hh and util/udinfo.hh
--     Replies     receive and maybe_send
--   Connection    no code of its own: a sender with its stream, a network, and a receiver with its
--                 Reassembler and its stream, as a system of steps
--     Pieces      the segments that a sender has sent, as parts of its stream
--     Sending, Pushing   a round of push, and push
--     Calls       the other calls of the sending side
--     Arriving    the receiving side
--     Keeping     what every step keeps
--     Prefix      what the reading application gets
--   Wire          util/parser.hh, util/buffer.hh
--     Parsing     the methods of the Parser as steps that may fail
--     Reading     what a BufferList holds, and reading a byte of it
--     Steps       what each step reads
--     Ends        a parser at its beginning, and what is left for all_remaining
--     Cutting     how the bytes are cut into buffers
--     Writing     what the Serializer has written
--   Ethernet      util/ethernet_header.hh, util/ethernet_header.cc, util/ethernet_frame.hh
--     RoundTrip   frames
--   Arp           util/arp_message.hh, util/arp_message.cc
--     RoundTrip   messages
--   Checksum      util/checksum.hh
--     Sum         the sum and its folding
--   Ipv4          util/ipv4_header.hh, util/ipv4_header.cc, util/ipv4_datagram.hh
--     RoundTrip   datagrams
--     Version     which version they have
--   Segment       util/tcp_segment.hh, util/tcp_segment.cc
--     RoundTrip   the members of a segment
--     Summing     its checksum
--   Adapter       util/tcp_over_ip.hh, util/tcp_over_ip.cc, util/fd_adapter.hh, and FdAdapterConfig of
--                 util/tcp_config.hh
--     Carried     wrapping and unwrapping
--   Interface     src/network_interface.hh, src/network_interface.cc
--     Table       the ARP table
--     Sending     send_datagram
--     Resolving   how two interfaces learn their addresses
--     Releasing   the datagrams that wait
--   Descriptor    util/file_descriptor.hh, util/file_descriptor.cc, and CheckSystemCall of
--                 util/exception.hh
--   Socket        util/socket.hh, util/socket.cc
--   Tuntap        util/tuntap_adapter.hh, util/tuntap_adapter.cc, util/lossy_fd_adapter.hh
--     Pending     send_pending
--     Crossing    from one TUN device to another
--     Dividing    the division of what a device delivers into strings
--   Router        src/router.hh, src/router.cc
--     Longest     the search of the table
--     Queues      the queues of the interfaces
--     Naming      the addresses of the interfaces
--     Forwarding  route
--   EventLoop     util/eventloop.hh, util/eventloop.cc
--     Polling     wait_next_event from poll on
--     Serving     which rules are served
--     Keeping     what every callback keeps
--   StreamCopy    apps/bidirectional_stream_copy.cc
--     Flowing     the callbacks
--     Conserving  the program
--     Stalling    reads that find nothing
--   Minnow        util/tcp_minnow_socket.hh, util/tcp_minnow_socket.cc
--     Running     the loop, connect, listen_and_accept and the TCP thread
--     Gathering   which segments collect_segments collects
--     Collecting  its loop
--     Connecting  the beginning of connect
--     Tunnel      over a TUN device
--   EndToEnd      apps/endtoend.cc
--     Networking  the network thread
--     Routes      the routing tables
--     Receiving   what the interfaces of its router receive
--     Running     what its router keeps
-- Each Tests module runs the code of its directory, and applies the theorems at concrete inputs.
--
-- How the code corresponds: a member function is a function of the object, which takes the state
-- and returns the new one. A member keeps its name without the trailing underscore, and a type is
-- spelled in UpperCamelCase (TcpSender for TCPSender). A std::string is a list of bytes, and
-- std::list and std::queue are lists, front first. A string that has been moved from is empty, and
-- the iterator before the first node of a std::list is the end of the list, both as in libstdc++.
-- uint64_t and uint32_t operations wrap (add64, sub64, add32, sub32), and the theorems say where
-- they do not. A call that may fail gives an Outcome: a value, std::out_of_range,
-- std::runtime_error, undefined behaviour (the front of an empty queue), or the end of the fuel. At
-- the empty queue the loop of Reader::pop stops whatever front() gives there, since the test of
-- empty() follows. A Buffer is the string that it holds, an Address its 32-bit number, with its
-- port where one is used, an EthernetAddress a list of six bytes, and a std::unordered_map an
-- association list with each key once. An integer that the Parser reads or the Serializer writes
-- has its width in bytes as an argument. What a device delivers to a read is an argument too, and
-- what is written to it is returned. The random numbers of the lossy adapter are arguments. A
-- callback of the EventLoop is a function on a World, which holds the state of the program, of the
-- file descriptors and the handles that have been cancelled; poll and getsockopt are arguments.
-- Callbacks add no rules, as in this repository, and an interest function changes nothing.
--
-- What a system call answers is an argument: a value, or one of the errno values that the code
-- tells apart. Which bit of the flags is O_NONBLOCK is an argument too. A unix_error counts as a
-- std::runtime_error, and the dereference of an empty std::optional as undefined. The names of rule
-- categories are empty, since they are only for the printed summary. For StreamCopy, Minnow and
-- EndToEnd the state of the World holds what the system calls answer in the current round, and a
-- run of the loop takes the answers, the result of poll and the time of each round from a list. The
-- logs `taken`, `given` and `stalled` of StreamCopy are kept by no code. The adapter of a
-- TCPMinnowSocket, a template parameter, is a record of its five operations, which Tunnel and
-- EndToEnd fill; what it writes is kept in the adapter's state. The random ISN of the TCPSender is
-- an argument of its constructor and of that of TCPPeer.
--
-- Bounds and fuel: a stream is valid if its counters agree with its queue, no string of the queue
-- is empty, and it holds no more than its capacity. A Reassembler is sound beside a stream if the
-- stream is valid, the end of the window is below 2^63, the nodes lie apart behind the next byte
-- and within the window, none is empty, and the byte count is theirs. The loops of pop, of insert
-- and of receive go down a list. read has the fuel `len + 1`, since each round reads a byte at
-- least and the last one only tests; push has the window (one, if it is zero) plus one, since each
-- round adds a number to those in flight or is the last. The outstanding segments are in step with
-- the numbers in flight if they are numbered on without a gap from the first number in flight to
-- the last one sent, fewer than 2^31 of them, and the numbers sent are at most 2^64 - 2^32.
--
-- The loop of InternetChecksum::value has fuel for two rounds, which a sum of 32 bits needs at
-- most. send_pending has one round for each frame that is ready, and the last one, which finds
-- none, and so has the loop of the network thread over maybe_send. collect_segments has a round for
-- each segment that waits and for each number that the window has room for, and two more: a round
-- sends a segment, of which push makes at most one for each such number, or the one empty segment
-- that may be due, or is the last.
--
-- Not modelled: Parser::string, which nothing calls, and the printing of headers. Of
-- TCPMinnowSocket: the owner's thread, the socket pair that joins it to the TCP thread, and the
-- destructor and wait_until_closed, which join the threads. Of file descriptors: duplicate(), by
-- which two of them share their state, and moved-from objects. Of sockets: the calls that only pass
-- their arguments on to a system call. The opening of TUN and TAP devices, addresses, which ask the
-- resolver, the seeding of random numbers, the hello to the bouncer and the debug output of
-- apps/endtoend.cc, and the other programs of apps/ are input and output of the system. Buffer,
-- which shares a string between copies of a message, is the string itself: TCPReceiver::receive
-- empties that string, which a caller who keeps a copy of the message would see, but the messages
-- come from parsed segments that no one keeps. The sequence length of a message does not wrap, as a
-- payload is far shorter than 2^64 bytes.
pub mod Base
pub mod Stream
pub mod Reassembler
pub mod Wrap
pub mod Message
pub mod Receiver
pub mod Sender
pub mod Peer
pub mod Connection
pub mod Wire
pub mod Ethernet
pub mod Arp
pub mod Checksum
pub mod Ipv4
pub mod Segment
pub mod Adapter
pub mod Interface
pub mod Tuntap
pub mod Router
pub mod Descriptor
pub mod Socket
pub mod EventLoop
pub mod StreamCopy
pub mod Minnow
pub mod EndToEnd
